-- ===== src/Sdk/KeyTests.antt =====
-- A key file that is made and read.
use relayly.Base.{◌≡◌, refl, true, false, none, some, [], ok, insert, lookup, nat_eq, replicate}
use relayly.Sdk.Keys.{
  FileSystem, trim_end, with_newline, key_of_bytes, load_or_generate_key, load_key_from_file,
  or_generate, generate_and_save, generate_key, save_to_file, expand_home,
}
use relayly.Sdk.Unary64.{unary64, written, parsed, unary}

abbrev disk : FileSystem
disk = record {
  home = some "/home/u";
  join = λ a b. a;
  makes_directories = true;
  reads = true;
  writes = true;
  leaves = none;
}

-- The file is made by the first call and read by the second, although the disk is full by then.
load_again_example :
    let r = load_or_generate_key unary64 disk (some (replicate 32 1)) "~/k" [] in
    (load_or_generate_key unary64 (record disk { writes = false }) none "~/k" r.1).0
    ≡ ok (replicate 32 1)
unfolding parsed written unary trim_end with_newline key_of_bytes load_or_generate_key
    load_key_from_file or_generate generate_and_save generate_key save_to_file expand_home lookup
    insert
load_again_example = refl
