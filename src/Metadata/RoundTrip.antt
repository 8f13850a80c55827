-- ===== src/Metadata/RoundTrip.antt =====
-- A metadata file is read back as it was written.
use redisraft.Prelude.{
  ◌≡◌, ◌==◌, ◌^◌, refl, true, some, [], ◌++◌, length, arith, pos, fits, append_assoc, append-nil,
  bytes_eq, bytes_eq_refl,
}
use mathlib.Core.Path.{subst}
use redisraft.Wire.{Bytes, star}
use redisraft.NodeAddr.Parse.{NoNul}
use redisraft.Multibulk.{write_len, write_str, write_signed}
use redisraft.Multibulk.Number.{read_len-write_len}
use redisraft.Multibulk.RoundTrip.{read_str-write_str, read_signed-write_signed}
use redisraft.Metadata.{Metadata, metadata_str, metadata_text, read_text}

-- fields that fit their C types, with a database id of 32 characters
pub record IsMetadata (m : Metadata) : Type 0 where
  pub dbid_length : length m.dbid ≡ 32
  pub dbid_string : NoNul m.dbid
  pub node_fits : fits (2 ^ 31) m.node_id ≡ true
  pub term_fits : fits (2 ^ 63) m.term ≡ true
  pub vote_fits : fits (2 ^ 31) m.vote ≡ true

metadata_text-append :
    (m : Metadata) (rest : Bytes)
    → metadata_text m ++ rest
      ≡ write_len star (pos 6)
        ++ (write_str metadata_str
            ++ (write_signed (pos 1)
                ++ (write_str m.dbid
                    ++ (write_signed m.node_id
                        ++ (write_signed m.term ++ (write_signed m.vote ++ rest))))))
unfolding metadata_text
metadata_text-append m rest = simp append_assoc

metadata_str-NoNul : NoNul metadata_str
metadata_str-NoNul = (
  (λ e. omega arith),
  (
    (λ e. omega arith),
    (
      (λ e. omega arith),
      (
        (λ e. omega arith),
        ((λ e. omega arith), ((λ e. omega arith), ((λ e. omega arith), ((λ e. omega arith), tt)))),
      ),
    ),
  ),
)

metadata_str-eq : bytes_eq metadata_str metadata_str ≡ true
metadata_str-eq = bytes_eq_refl metadata_str

read_text-append :
    (m : Metadata) (rest : Bytes) → IsMetadata m → read_text (metadata_text m ++ rest) ≡ some m
unfolding read_text
read_text-append m rest h =
    let dbid_32 : (length m.dbid == 32) ≡ true = ground (arith, h.dbid_length) in
    rw
      (
        metadata_text-append m rest,
        read_len-write_len star (pos 6) _ (λ e. omega arith) refl,
        read_str-write_str 128 metadata_str _ (omega arith) (omega arith) metadata_str-NoNul,
        metadata_str-eq,
        read_signed-write_signed (2 ^ 31) (pos 1) _ (omega arith) refl,
        read_str-write_str 64 m.dbid _ (omega (arith, h.dbid_length)) (omega (arith, h.dbid_length))
            h.dbid_string,
        dbid_32,
        read_signed-write_signed (2 ^ 31) m.node_id _ (omega arith) h.node_fits,
        read_signed-write_signed (2 ^ 63) m.term _ (omega arith) h.term_fits,
        read_signed-write_signed (2 ^ 31) m.vote _ (omega arith) h.vote_fits,
      )
      refl

pub read_text-metadata_text : (m : Metadata) → IsMetadata m → read_text (metadata_text m) ≡ some m
read_text-metadata_text m h =
    subst (λ t. read_text t ≡ some m) (append-nil (metadata_text m)) (read_text-append m [] h)
