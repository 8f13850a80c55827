-- ===== src/Log/Access.antt =====
-- `LogGet` finds every entry, on whichever page it is.
use redisraft.Prelude.{
  ℕ, zero, suc, ◌+◌, ◌-◌, ◌^◌, ◌≤◌, ◌<◌, ◌≡◌, refl, ap, ◌∙◌, true, false, none, some, List, [], ◌∷◌,
  ◌++◌, leb, length, arith, Bool-cases, Option-cases, inl, inr, append-nil, get_elem?,
  get_elem?-append_left, get_elem?-beyond,
}
use redisraft.Wire.{Bytes}
use redisraft.Page.{Entry}
use redisraft.Page.Seek.{entry_at, page_get_refines}
use redisraft.Log.{Log, log_get, prev_log_index}
use redisraft.Log.Rep.{IsLog, IsSplit-cases}

get_elem?-append_right :
    {A : Type 0} (xs ys : List A) (i : ℕ)
    → length xs ≤ i
    → get_elem? (xs ++ ys) i ≡ get_elem? ys (i - length xs)
get_elem?-append_right [] ys i h = ap (get_elem? ys) (omega arith)
get_elem?-append_right (x ∷ xs) ys zero h = absurd (omega arith)
get_elem?-append_right (x ∷ xs) ys (suc i) h =
    get_elem?-append_right xs ys i (omega arith) ∙ ap (get_elem? ys) (omega arith)

pub entry_at-behind :
    (prev idx : ℕ) (xs ys : List Entry)
    → prev + length xs < idx
    → entry_at prev (xs ++ ys) idx ≡ entry_at (prev + length xs) ys idx
unfolding entry_at
entry_at-behind prev idx xs ys h =
    let low : leb idx prev ≡ false = ground (arith, h) in
    let low' : leb idx (prev + length xs) ≡ false = ground (arith, h) in
    rw (low, low', get_elem?-append_right xs ys (idx - prev - 1) (omega arith))
      (ap (get_elem? ys) (omega arith))

pub entry_at-inside :
    (prev idx : ℕ) (xs ys : List Entry)
    → idx ≤ prev + length xs
    → entry_at prev (xs ++ ys) idx ≡ entry_at prev xs idx
unfolding entry_at
entry_at-inside prev idx xs ys h = elim (Bool-cases (leb idx prev)) [
  | inl low ↦ rw low refl
  | inr high ↦ rw high (get_elem?-append_left xs ys (idx - prev - 1) (ground (arith, high, h)))
]

-- no entries at or before `prev`
pub entry_at-before : (prev idx : ℕ) (ys : List Entry) → idx ≤ prev → entry_at prev ys idx ≡ none
unfolding entry_at
entry_at-before prev idx ys h = let low : leb idx prev ≡ true = ground (arith, h) in rw low refl

pub entry_at-beyond :
    (prev idx : ℕ) (ys : List Entry) → prev + length ys < idx → entry_at prev ys idx ≡ none
unfolding entry_at
entry_at-beyond prev idx ys h =
    let low : leb idx prev ≡ false = ground (arith, h) in
    rw low (get_elem?-beyond ys (idx - prev - 1) (omega (arith, h)))

module _ (crc32 : ℕ → Bytes → ℕ) (crc_small : (c : ℕ) (s : Bytes) → crc32 c s < 2 ^ 32) where
  -- On a log that holds entries, `LogGet` fails no assertion. It returns the entry at the index, on whichever page it
  -- is, and NULL for an index before or behind the entries.
  pub log_get_refines :
      (log : Log) (es : List Entry) (idx : ℕ)
      → IsLog crc32 log es
      → log_get log idx ≡ some (entry_at (prev_log_index log) es idx)
  unfolding log_get prev_log_index
  log_get_refines log es idx (xs, ys, e, r) =
      let first = page_get_refines crc32 crc_small log.page0 xs idx r.first in
      let prev = log.page0.prev_log_idx in
      elim (IsSplit-cases crc32 log xs ys r) [
        | inl (none_there, empty) ↦
            let all : es ≡ xs = e ∙ ap (λ t. xs ++ t) empty ∙ append-nil xs in
            rw (none_there, all) first
        | inr (p1, there, held, after) ↦
            let second = page_get_refines crc32 crc_small p1 ys idx held in
            let start : p1.prev_log_idx ≡ prev + length xs = after.subsequent ∙ r.first.last in
            elim (Bool-cases (leb idx (prev + length xs))) [
              | inl low ↦
                  let inside : idx ≤ prev + length xs = ground (arith, low) in
                  let nothing : entry_at p1.prev_log_idx ys idx ≡ none =
                    entry_at-before p1.prev_log_idx idx ys (omega (arith, start, inside)) in
                  rw (there, second, nothing, e, entry_at-inside prev idx xs ys inside) first
              | inr high ↦
                  let behind : prev + length xs < idx = ground (arith, high) in
                  elim (Option-cases (entry_at (prev + length xs) ys idx)) [
                    | inr (ety, found) ↦
                        rw
                          (
                            there,
                            second,
                            start,
                            found,
                            e,
                            entry_at-behind prev idx xs ys behind,
                            found,
                          )
                          refl
                    | inl missing ↦
                        rw
                          (
                            there,
                            second,
                            start,
                            missing,
                            e,
                            entry_at-behind prev idx xs ys behind,
                            missing,
                            first,
                            entry_at-beyond prev idx xs behind,
                          )
                          refl
                  ]
            ]
      ]
