-- ===== src/File.antt =====
-- file.c: a file that is read and written through one buffer of 4096 bytes, and grows at its end only.
pub mod Write
mod Tests
use redisraft.Prelude.{
  ℕ, zero, suc, ◌+◌, ◌-◌, Bool, true, false, Option, none, some, List, [], ◌∷◌, ◌++◌, ◌==◌, ◌>>=◌,
  if◌then◌else◌, length, take, drop, leb, ltb, replicate,
}
use redisraft.Wire.{Bytes}

-- `File`. `disk` is what the kernel holds, `pos` the read position of the descriptor. `wbuf` is what stands
-- before `wpos` in the buffer, `rbuf` what stands from `rpos` to `rend`.
pub record File : Type 0 where
  pub disk : Bytes
  pub pos : ℕ
  pub wbuf : Bytes
  pub rbuf : Bytes
  pub roffset : ℕ
  pub woffset : ℕ

abbrev pub buf_size : ℕ
buf_size = 4096

-- What the next calls of `write` or `writev` do: `none` fails, `some k` writes `k` bytes, or all there are if
-- these are fewer. Behind the end of the list a call writes all.
abbrev pub Calls : Type 0
Calls = List (Option ℕ)

-- `FileOpen` of a file with this content
pub file_open : Bytes → File
file_open disk = record {
  disk = disk;
  pos = 0;
  wbuf = [];
  rbuf = [];
  roffset = 0;
  woffset = length disk;
}

-- The loop of `FileFlush`, and of `FileWrite`: the bytes on the disk, those that are not, and whether the calls have
-- been successful.
unfoldable pub write_loop : Calls → Bytes → Bytes → Bool × Bytes × Bytes
write_loop [] left disk = (true, disk ++ left, [])
write_loop (none ∷ calls) left disk = (false, disk, left)
write_loop (some k ∷ calls) left disk =
    let rest = write_loop calls (drop k left) (disk ++ take k left) in
    if leb (length left) k then (true, disk ++ left, []) else rest

-- the position of the descriptor after writing, which is at the end of the file then
abbrev moved : ℕ → Bytes → Bytes → ℕ
moved pos before after = if length before == length after then pos else length after

-- `FileFlush`, and whether it returns RR_OK
unfoldable pub file_flush : Calls → File → Bool × File
file_flush calls f =
    let (done, disk, left) = write_loop calls f.wbuf f.disk in
    if length f.wbuf == 0
    then (true, f)
    else (done, record f { disk = disk; pos = moved f.pos f.disk disk; wbuf = left; rbuf = [] })

-- `FileWrite`, and whether it returns the length
unfoldable pub file_write : Calls → File → Bytes → Bool × File
file_write calls f buf =
    if leb (length buf) (buf_size - length f.wbuf)
    then (true, record f { rbuf = []; wbuf = f.wbuf ++ buf; woffset = f.woffset + length buf })
    else (let (done, disk, left) = write_loop calls (f.wbuf ++ buf) f.disk in
        let unsent = if leb (length left) (length buf) then length left else length buf in
        (
          done,
          record f {
            disk = disk;
            pos = moved f.pos f.disk disk;
            wbuf = take (length left - unsent) left;
            rbuf = [];
            woffset = f.woffset + (length buf - unsent);
          },
        ))

-- `FileSize`
unfoldable pub file_size : File → ℕ
file_size f = f.woffset

-- `FileTruncate` where `ftruncate` succeeds; a longer length fills up with zeros
unfoldable pub file_truncate : Calls → ℕ → File → Bool × File
file_truncate calls len f =
    let (done, f) = file_flush calls f in
    if done
    then (
      true,
      record f {
        disk = take len f.disk ++ replicate (len - length f.disk) 0;
        woffset = len;
        roffset = 0;
        rbuf = [];
      },
    )
    else (false, f)

-- `FileSetReadOffset` where `lseek` succeeds
unfoldable pub file_set_read_offset : Calls → ℕ → File → Bool × File
file_set_read_offset calls offset f =
    let (done, f) = file_flush calls f in
    if done
    then (true, record f { wbuf = []; rbuf = []; pos = offset; roffset = offset })
    else (false, f)
