-- ===== src/File/Tests.antt =====
-- 5000 bytes behind 3 in the buffer, of which the first call writes 4 and the second none.
use redisraft.Prelude.{
  ℕ, ◌≡◌, refl, true, none, some, [], ◌∷◌, ◌++◌, length, take, replicate, arith,
}
use redisraft.Wire.{Bytes}
use redisraft.File.{File, Calls, file_write, file_size}
use redisraft.File.Write.{content, IsFile, file_write_refines}

abbrev buffered : File
buffered = record {
  disk = 65 ∷ 66 ∷ [];
  pos = 0;
  wbuf = 67 ∷ 68 ∷ 69 ∷ [];
  rbuf = [];
  roffset = 0;
  woffset = 5;
}

buffered-IsFile : IsFile buffered
buffered-IsFile = record { room = omega arith; size = refl }

abbrev two_calls : Calls
two_calls = some 4 ∷ none ∷ []

abbrev long : Bytes
long = replicate 5000 70

file_write_refines_example :
    let (done, f') = file_write two_calls buffered long in
    IsFile f'
    × (k : ℕ) × (content f' ≡ content buffered ++ take k long)
    × (file_size f' ≡ length (content f'))
    × (done ≡ true → k ≡ length long)
file_write_refines_example = file_write_refines two_calls buffered long buffered-IsFile
