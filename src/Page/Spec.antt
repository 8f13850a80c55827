-- ===== src/Page/Spec.antt =====
-- What a page is meant to hold: its entries, one behind the other.
use redisraft.Prelude.{
  ℕ, suc, ◌+◌, ◌≡◌, refl, sym, ap, ◌∙◌, List, [], ◌∷◌, ◌++◌, length, arith, ℤ, append_assoc,
  length-append,
}
use redisraft.Wire.{Bytes}
use redisraft.Multibulk.{write_signed}
use redisraft.Page.{Entry, Header, page_header, entry_crc, header_crc}
use redisraft.Page.Text.{entry_with}

module _ (crc32 : ℕ → Bytes → ℕ) where
  -- an entry on the file, behind what has the running crc `crc`
  abbrev pub entry_text : ℤ → Entry → Bytes
  entry_text crc e = entry_with e (entry_crc crc32 crc e)

  unfoldable pub entries_text : ℤ → List Entry → Bytes
  entries_text crc [] = []
  entries_text crc (e ∷ es) = entry_text crc e ++ entries_text (entry_crc crc32 crc e) es

  -- where the entries begin, the first one at `offset`
  unfoldable pub offsets : ℕ → ℤ → List Entry → List ℕ
  offsets offset crc [] = []
  offsets offset crc (e ∷ es) =
      offset ∷ offsets (offset + length (entry_text crc e)) (entry_crc crc32 crc e) es

  -- the running crc behind the entries
  unfoldable pub crc_after : ℤ → List Entry → ℤ
  crc_after crc [] = crc
  crc_after crc (e ∷ es) = crc_after (entry_crc crc32 crc e) es

  unfoldable pub header_text : Header → Bytes
  header_text h = page_header h ++ write_signed (header_crc crc32 h)

  pub crc_after-append :
      (crc : ℤ) (xs ys : List Entry) → crc_after crc (xs ++ ys) ≡ crc_after (crc_after crc xs) ys
  unfolding crc_after
  crc_after-append crc [] ys = refl
  crc_after-append crc (x ∷ xs) ys = crc_after-append (entry_crc crc32 crc x) xs ys

  pub entries_text-append :
      (crc : ℤ) (xs ys : List Entry)
      → entries_text crc (xs ++ ys) ≡ entries_text crc xs ++ entries_text (crc_after crc xs) ys
  unfolding entries_text crc_after
  entries_text-append crc [] ys = refl
  entries_text-append crc (x ∷ xs) ys =
      ap (λ t. entry_text crc x ++ t) (entries_text-append (entry_crc crc32 crc x) xs ys)
      ∙ sym (append_assoc (entry_text crc x) _ _)

  pub offsets-append :
      (offset : ℕ) (crc : ℤ) (xs ys : List Entry)
      → offsets offset crc (xs ++ ys)
        ≡ offsets offset crc xs
          ++ offsets (offset + length (entries_text crc xs)) (crc_after crc xs) ys
  unfolding entries_text crc_after offsets
  offsets-append offset crc [] ys = ap (λ o. offsets o crc ys) (omega arith)
  offsets-append offset crc (x ∷ xs) ys =
      let here = entry_text crc x in
      let next = entry_crc crc32 crc x in
      let size : offset + length here + length (entries_text next xs)
          ≡ offset + length (here ++ entries_text next xs) =
        omega (arith, length-append here (entries_text next xs)) in
      ap (λ l. offset ∷ l) (rw (← size) (offsets-append (offset + length here) next xs ys))

  pub length-offsets :
      (offset : ℕ) (crc : ℤ) (xs : List Entry) → length (offsets offset crc xs) ≡ length xs
  unfolding offsets
  length-offsets offset crc [] = refl
  length-offsets offset crc (x ∷ xs) =
      ap suc (length-offsets (offset + length (entry_text crc x)) (entry_crc crc32 crc x) xs)
