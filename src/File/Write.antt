-- ===== src/File/Write.antt =====
-- What is written stands at the end of the file, in the buffer or on the disk.
use redisraft.Prelude.{
  drop-drop, take-take-drop, ℕ, ◌+◌, ◌-◌, ◌≤◌, ◌≡◌, ◌⊎◌, refl, sym, ap, ◌∙◌, true, none, some, List,
  [], ◌∷◌, ◌++◌, ◌==◌, length, take, drop, leb, if◌then◌else◌, arith, Bool-cases, inl, inr,
  append_assoc, append-nil, length-append, take-drop, take-append_beyond, take-all, drop-all,
  length-drop, length-take_of_le,
}
use redisraft.Wire.{Bytes}
use redisraft.File.{File, Calls, buf_size, write_loop, file_flush, file_write, file_size}

-- the bytes that have been written
abbrev pub content : File → Bytes
content f = f.disk ++ f.wbuf

-- The buffer is not over-full, and the size is that of what has been written.
pub record IsFile (f : File) : Type 0 where
  pub room : length f.wbuf ≤ buf_size
  pub size : f.woffset ≡ length (content f)

-- No byte is lost or doubled, whatever the calls do.
write_loop-append :
    (calls : Calls) (left disk : Bytes)
    → let (done, disk', left') = write_loop calls left disk in
      (j : ℕ) × (j ≤ length left)
      × (disk' ≡ disk ++ take j left)
      × (left' ≡ drop j left)
      × (done ≡ true → left' ≡ [])
unfolding write_loop
write_loop-append [] left disk = (
  length left,
  omega arith,
  ap (λ t. disk ++ t) (sym (take-all left (length left) (omega arith))),
  sym (drop-all left (length left) (omega arith)),
  λ e. refl,
)
write_loop-append (none ∷ calls) left disk = (0, omega arith, sym (append-nil disk), refl, λ e. cc)
write_loop-append (some k ∷ calls) left disk = elim (Bool-cases (leb (length left) k)) [
  | inl all ↦ rw all (
    length left,
    omega arith,
    ap (λ t. disk ++ t) (sym (take-all left (length left) (omega arith))),
    sym (drop-all left (length left) (omega arith)),
    λ e. refl,
  )
  | inr part ↦
      let short : k ≤ length left = ground (arith, part) in
      let (j, low, on_disk, unsent, done) =
        write_loop-append calls (drop k left) (disk ++ take k left) in
      rw part (
        k + j,
        omega (arith, low, short, length-drop k left),
        on_disk
            ∙ append_assoc disk (take k left) (take j (drop k left))
            ∙ ap (λ t. disk ++ t) (take-take-drop k j left),
        unsent ∙ drop-drop j k left,
        done,
      )
]

empty_of_length : {A : Type 0} (zs : List A) → length zs ≡ 0 → zs ≡ []
empty_of_length [] h = refl
empty_of_length (z ∷ zs) h = absurd (omega arith)

-- A file after `FileFlush`: the same content, and nothing in the buffer where it succeeds.
pub file_flush-content :
    (calls : Calls) (f : File)
    → IsFile f
    → let (done, f') = file_flush calls f in
      IsFile f' × (content f' ≡ content f) × (done ≡ true → f'.wbuf ≡ [])
unfolding file_flush
file_flush-content calls f r = elim (Bool-cases (length f.wbuf == 0)) [
  | inl empty ↦ rw empty (r, refl, λ e. empty_of_length f.wbuf (ground (arith, empty)))
  | inr full ↦
      let (j, low, on_disk, unsent, done) = write_loop-append calls f.wbuf f.disk in
      let same : (write_loop calls f.wbuf f.disk).1 ++ (write_loop calls f.wbuf f.disk).2
          ≡ content f =
        rw (on_disk, unsent)
          (append_assoc f.disk (take j f.wbuf) (drop j f.wbuf)
            ∙ ap (λ t. f.disk ++ t) (take-drop j f.wbuf)) in
      rw full (
        record {
          room = omega (arith, r.room, ap length unsent, length-drop j f.wbuf);
          size = r.size ∙ sym (ap length same);
        },
        same,
        done,
      )
]

-- On a file whose buffer is not over-full and whose size is right, `FileWrite` keeps it so. Where it returns the length the bytes stand
-- behind what had been written; where it fails, some first part of them does.
pub file_write_refines :
    (calls : Calls) (f : File) (buf : Bytes)
    → IsFile f
    → let (done, f') = file_write calls f buf in
      IsFile f'
      × (k : ℕ) × (content f' ≡ content f ++ take k buf)
      × (file_size f' ≡ length (content f'))
      × (done ≡ true → k ≡ length buf)
unfolding file_write file_size
file_write_refines calls f buf r = elim (Bool-cases (leb (length buf) (buf_size - length f.wbuf))) [
  | inl fits_in ↦
      let same : f.disk ++ (f.wbuf ++ buf) ≡ content f ++ take (length buf) buf =
        sym (append_assoc f.disk f.wbuf buf)
        ∙ ap (λ t. content f ++ t) (sym (take-all buf (length buf) (omega arith))) in
      let grown : f.woffset + length buf ≡ length (f.disk ++ (f.wbuf ++ buf)) = omega (
        arith,
        r.size,
        length-append f.disk (f.wbuf ++ buf),
        length-append f.wbuf buf,
        length-append f.disk f.wbuf,
      ) in
      rw fits_in (
        record { room = ground (arith, fits_in, r.room, length-append f.wbuf buf); size = grown },
        length buf,
        same,
        grown,
        λ e. refl,
      )
  | inr over ↦
      let all = f.wbuf ++ buf in
      let (j, low, on_disk, rest, done) = write_loop-append calls all f.disk in
      let left = (write_loop calls all f.disk).2 in
      let unsent = if leb (length left) (length buf) then length left else length buf in
      let size_left : length left ≡ length all - j = ap length rest ∙ length-drop j all in
      let size_all = length-append f.wbuf buf in
      let unsent_le : (unsent ≤ length left) × (unsent ≤ length buf) = ground arith in
      let k = length buf - unsent in
      let taken : j + (length left - unsent) ≡ length f.wbuf + k =
        omega (arith, size_left, size_all, low, unsent_le.0, unsent_le.1) in
      let beyond : length f.wbuf + k - length f.wbuf ≡ k = omega arith in
      let same : (write_loop calls all f.disk).1 ++ take (length left - unsent) left
          ≡ content f ++ take k buf =
        ap (λ t. t ++ take (length left - unsent) left) on_disk
        ∙ ap (λ l. (f.disk ++ take j all) ++ take (length left - unsent) l) rest
        ∙ append_assoc f.disk (take j all) (take (length left - unsent) (drop j all))
        ∙ ap (λ t. f.disk ++ t)
            (take-take-drop j (length left - unsent) all
              ∙ ap (λ n. take n all) taken
              ∙ take-append_beyond f.wbuf buf (length f.wbuf + k) (omega arith)
              ∙ ap (λ n. f.wbuf ++ take n buf) beyond)
        ∙ sym (append_assoc f.disk f.wbuf (take k buf)) in
      let size_k : length (take k buf) ≡ k = length-take_of_le buf k (omega arith) in
      let grown : f.woffset + k
          ≡ length ((write_loop calls all f.disk).1 ++ take (length left - unsent) left) =
        omega (arith, r.size, ap length same, length-append (content f) (take k buf), size_k) in
      let unsent_is : (unsent ≡ length left) ⊎ (unsent ≡ length buf) = ground arith in
      let room : length (take (length left - unsent) left) ≤ buf_size = ground (
        arith,
        length-take_of_le left (length left - unsent) (omega arith),
        unsent_is,
        size_left,
        size_all,
        r.room,
        low,
      ) in
      rw over (
        record { room = room; size = grown },
        k,
        same,
        grown,
        λ e. omega (arith, ap length (done e), unsent_le.0),
      )
]
