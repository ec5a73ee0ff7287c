-- ===== src/Examples/Clipboard.antt =====
-- examples/go/clipboard-sync/main.go: two devices that keep their clipboards alike. Each has a loop
-- that polls its clipboard and one that writes what arrives; what is sent arrives in order.
use relayly.Base.{
  ℕ, zero, suc, ◌≡◌, ◌≢◌, refl, ◌∙◌, sym, ap, subst, String, Bool, true, not, ◌&&◌, List, [], ◌∷◌,
  ◌++◌, arith, ◌==◌, string_eq, eq_iff, if◌then◌else◌,
}

-- A device on macOS: its clipboard, the text that its loop has seen last, and what has been sent to
-- it and not been read.
pub record Device : Type 0 where
  pub clipboard : String
  pub last : String
  pub inbox : List String

pub record Pair : Type 0 where
  pub here : Device
  pub there : Device

abbrev pub other_way : Pair → Pair
other_way p = record { here = p.there; there = p.here }

-- `readClipboard`: empty off macOS, and where `pbpaste` fails.
unfoldable pub read_clipboard : Bool → Device → String
read_clipboard pastes d = if pastes then d.clipboard else ""

-- `writeClipboard`, which keeps the clipboard where `pbcopy` fails.
unfoldable pub write_clipboard : Bool → String → Device → Device
write_clipboard copies text d = if copies then record d { clipboard = text } else d

-- One turn of the polling loop on this side; the send's error is only printed.
unfoldable pub poll : Bool → Bool → Pair → Pair
poll pastes sends p =
    let current = read_clipboard pastes p.here in
    if not (current == p.here.last) && not (current == "")
    then record {
      here = record p.here { last = current };
      there = if sends then record p.there { inbox = p.there.inbox ++ current ∷ [] } else p.there;
    }
    else p

abbrev pub arrived : Bool → List String → Pair → Pair
arrived copies [] p = p
arrived copies (text ∷ rest) p = record p {
  here = write_clipboard copies text (record p.here { inbox = rest });
}

-- One turn of the loop that receives.
unfoldable pub receive : Bool → Pair → Pair
receive copies p = arrived copies p.here.inbox p

-- The user copies a text on this side.
abbrev pub copy : String → Pair → Pair
copy text p = record p { here = record p.here { clipboard = text } }

-- A turn of one of the four loops, with nothing failing but `pbpaste`.
pub data Turn : Type 0 where
  polls_here polls_there : Bool → Turn
  receives_here receives_there : Turn

unfoldable pub turn : Turn → Pair → Pair
turn (polls_here pastes) p = poll pastes true p
turn (polls_there pastes) p = other_way (poll pastes true (other_way p))
turn receives_here p = receive true p
turn receives_there p = other_way (receive true (other_way p))

-- The loops run on their own: any list of turns may be taken.
unfoldable pub turns : List Turn → Pair → Pair
turns [] p = p
turns (t ∷ ts) p = turns ts (turn t p)

abbrev pub polls : Pair → Pair
polls = turns (polls_here true ∷ polls_there true ∷ [])

abbrev pub receives : Pair → Pair
receives = turns (receives_here ∷ receives_there ∷ [])

-- One list of turns: each device receives, then each polls, and so on.
unfoldable pub in_step : ℕ → List Turn
in_step zero = []
in_step (suc n) = receives_here ∷ receives_there ∷ polls_here true ∷ polls_there true ∷ in_step n

unfoldable pub rounds : ℕ → Pair → Pair
rounds n = turns (in_step n)

abbrev device : String → List String → Device
device text inbox = record { clipboard = text; last = text; inbox = inbox }

abbrev pub settled : String → Pair
settled text = record { here = device text []; there = device text [] }

-- Both have polled, and each one's text is on the way to the other.
abbrev pub crossing : String → String → Pair
crossing x y = record { here = device x (y ∷ []); there = device y (x ∷ []) }

settled-round : (x : String) → polls (receives (settled x)) ≡ settled x
unfolding turns turn poll receive read_clipboard
settled-round x = ground (arith, eq_iff x x)

settled-stays : (n : ℕ) (x : String) → rounds n (settled x) ≡ settled x
unfolding rounds turns in_step
settled-stays zero x = refl
settled-stays (suc n) x = ap (rounds n) (settled-round x) ∙ settled-stays n x

pub crossing-start :
    (x y z : String)
    → x ≢ z
    → y ≢ z
    → x ≢ ""
    → y ≢ ""
    → polls (other_way (copy y (other_way (copy x (settled z))))) ≡ crossing x y
unfolding turns turn poll read_clipboard
crossing-start x y z xz yz a b = ground (arith, eq_iff x z, eq_iff y z, eq_iff x "", eq_iff y "")

-- The text is on the way to the other side, and then it comes back.
abbrev going : String → String → Pair
going x y = record {
  here = device x [];
  there = record { clipboard = y; last = y; inbox = x ∷ [] };
}

abbrev coming : String → Pair
coming x = record { here = device x (x ∷ []); there = device x [] }

going-start : (x y : String) → x ≢ y → x ≢ "" → polls (copy x (settled y)) ≡ going x y
unfolding turns turn poll read_clipboard
going-start x y apart named = ground (arith, eq_iff x y, eq_iff y y, eq_iff x "")

going-round : (x y : String) → x ≢ y → x ≢ "" → polls (receives (going x y)) ≡ coming x
unfolding turns turn poll receive read_clipboard write_clipboard
going-round x y apart named = ground (arith, eq_iff x y, eq_iff x x, eq_iff x "")

coming-round : (x : String) → polls (receives (coming x)) ≡ settled x
unfolding turns turn poll receive read_clipboard write_clipboard
coming-round x = ground (arith, eq_iff x x)

-- While the loops take their turns in step, a text that is copied while both clipboards are alike
-- and nothing is on the way reaches the other device, comes back once, and is not sent again.
pub copy-settles :
    (x y : String) (n : ℕ)
    → x ≢ y
    → x ≢ ""
    → rounds (suc (suc n)) (polls (copy x (settled y))) ≡ settled x
unfolding rounds turns in_step
copy-settles x y n apart named =
    ap (λ p. rounds (suc (suc n)) p) (going-start x y apart named)
    ∙ ap (λ p. rounds (suc n) p) (going-round x y apart named)
    ∙ ap (rounds n) (coming-round x)
    ∙ settled-stays n x

crossing-swaps :
    (x y : String) → x ≢ y → x ≢ "" → y ≢ "" → polls (receives (crossing x y)) ≡ crossing y x
unfolding turns turn poll receive read_clipboard write_clipboard
crossing-swaps x y apart a b = ground (arith, eq_iff x y, eq_iff y x, eq_iff x "", eq_iff y "")

abbrev pub Apart : Pair → Type 0
Apart p = (p.here.clipboard ≢ p.there.clipboard) × (p.here.inbox ≢ []) × (p.there.inbox ≢ [])

crossing-Apart : (n : ℕ) (x y : String) → x ≢ y → x ≢ "" → y ≢ "" → Apart (rounds n (crossing x y))
unfolding rounds turns in_step
crossing-Apart zero x y apart a b = (apart, λ e. cc, λ e. cc)
crossing-Apart (suc n) x y apart a b =
    subst (λ p. Apart (rounds n p)) (sym (crossing-swaps x y apart a b))
      (crossing-Apart n y x (λ e. apart (sym e)) b a)

-- A schedule on which they never come to rest.
pub copies-Apart :
    (n : ℕ) (x y z : String)
    → x ≢ y
    → x ≢ z
    → y ≢ z
    → x ≢ ""
    → y ≢ ""
    → Apart (turns (in_step n) (polls (other_way (copy y (other_way (copy x (settled z)))))))
unfolding rounds
copies-Apart n x y z apart xz yz a b =
    subst (λ p. Apart (rounds n p)) (sym (crossing-start x y z xz yz a b))
      (crossing-Apart n x y apart a b)
