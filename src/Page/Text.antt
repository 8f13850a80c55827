-- ===== src/Page/Text.antt =====
-- What entries look like on the file, and that they are read back.
use redisraft.Prelude.{
  ℕ, ◌^◌, ◌<◌, ◌≡◌, refl, true, some, ◌++◌, ◌==◌, length, arith, ℤ, pos, fits, append_assoc,
}
use redisraft.Prelude.{bytes_eq, bytes_eq_refl, eq_ℤ}
use redisraft.Wire.{Bytes, star, dollar}
use redisraft.NodeAddr.Parse.{NoNul}
use redisraft.Multibulk.{crlf, write_len, write_str, write_signed, write_unsigned}
use redisraft.Multibulk.Number.{read_len-write_len, file_read-append}
use redisraft.Multibulk.RoundTrip.{
  read_str-write_str, read_signed-write_signed, read_unsigned-write_unsigned,
}
use redisraft.Page.{
  Entry, Header, entry_header, page_header, read_entry, read_header, entry_str, raftlog_str,
}

-- an entry whose fields fit their C types
pub record IsEntry (e : Entry) : Type 0 where
  pub term_fits : fits (2 ^ 63) e.term ≡ true
  pub id_fits : fits (2 ^ 31) e.id ≡ true
  pub session_fits : e.session < 2 ^ 64
  pub type_fits : fits (2 ^ 31) e.type ≡ true
  pub body_fits : length e.body < 2 ^ 31

-- a header whose fields fit their C types, with a database id of 32 characters
pub record IsHeader (h : Header) : Type 0 where
  pub dbid_length : length h.dbid ≡ 32
  pub dbid_string : NoNul h.dbid
  pub node_fits : fits (2 ^ 31) h.node_id ≡ true
  pub term_fits : fits (2 ^ 63) h.prev_log_term ≡ true
  pub idx_fits : h.prev_log_idx < 2 ^ 63

pub lt→fits : (n limit : ℕ) → n < limit → fits limit (pos n) ≡ true
lt→fits n limit h = ground arith

seven-is-seven : eq_ℤ (pos 7) (pos 7) ≡ true
seven-is-seven = refl

-- an entry and its crc, as they stand on the file
unfoldable pub entry_with : Entry → ℤ → Bytes
entry_with e crc = entry_header e ++ (e.body ++ (crlf ++ write_signed crc))

entry_with-append :
    (e : Entry) (crc : ℤ) (rest : Bytes)
    → entry_with e crc ++ rest
      ≡ write_len star (pos 7)
        ++ (write_str entry_str
            ++ (write_signed e.term
                ++ (write_signed e.id
                    ++ (write_unsigned e.session
                        ++ (write_signed e.type
                            ++ (write_len dollar (pos (length e.body))
                                ++ (e.body ++ (crlf ++ (write_signed crc ++ rest)))))))))
unfolding entry_with entry_header
entry_with-append e crc rest = simp append_assoc

entry_str-NoNul : NoNul entry_str
entry_str-NoNul = (
  (λ e. omega arith),
  ((λ e. omega arith), ((λ e. omega arith), ((λ e. omega arith), ((λ e. omega arith), tt)))),
)

entry_str-eq : bytes_eq entry_str entry_str ≡ true
entry_str-eq = bytes_eq_refl entry_str

pub read_entry-with :
    (e : Entry) (crc : ℤ) (rest : Bytes)
    → IsEntry e
    → fits (2 ^ 63) crc ≡ true
    → read_entry (entry_with e crc ++ rest) ≡ some ((e, crc), rest)
unfolding read_entry
read_entry-with e crc rest h k =
    rw
      (
        entry_with-append e crc rest,
        read_len-write_len star (pos 7) _ (λ e. omega arith) refl,
        read_str-write_str 64 entry_str _ (omega arith) (omega arith) entry_str-NoNul,
        entry_str-eq,
        read_signed-write_signed (2 ^ 63) e.term _ (omega arith) h.term_fits,
        read_signed-write_signed (2 ^ 31) e.id _ (omega arith) h.id_fits,
        read_unsigned-write_unsigned e.session _ h.session_fits,
        read_signed-write_signed (2 ^ 31) e.type _ (omega arith) h.type_fits,
        read_len-write_len dollar (pos (length e.body)) _ (λ e. omega arith)
            (lt→fits (length e.body) (2 ^ 31) h.body_fits),
        file_read-append e.body _,
        file_read-append crlf _,
        read_signed-write_signed (2 ^ 63) crc rest (omega arith) k,
      )
      refl

page_header-append :
    (h : Header) (rest : Bytes)
    → page_header h ++ rest
      ≡ write_len star (pos 7)
        ++ (write_str raftlog_str
            ++ (write_signed (pos 1)
                ++ (write_str h.dbid
                    ++ (write_signed h.node_id
                        ++ (write_signed h.prev_log_term
                            ++ (write_signed (pos h.prev_log_idx) ++ rest))))))
unfolding page_header
page_header-append h rest = simp append_assoc

raftlog_str-NoNul : NoNul raftlog_str
raftlog_str-NoNul = (
  (λ e. omega arith),
  (
    (λ e. omega arith),
    (
      (λ e. omega arith),
      ((λ e. omega arith), ((λ e. omega arith), ((λ e. omega arith), ((λ e. omega arith), tt)))),
    ),
  ),
)

raftlog_str-eq : bytes_eq raftlog_str raftlog_str ≡ true
raftlog_str-eq = bytes_eq_refl raftlog_str

-- A header and its crc are read back as they were written.
pub read_header-page_header :
    (d : Header) (crc : ℤ) (rest : Bytes)
    → IsHeader d
    → fits (2 ^ 63) crc ≡ true
    → read_header (page_header d ++ (write_signed crc ++ rest)) ≡ some ((d, crc), rest)
unfolding read_header
read_header-page_header d crc rest h k =
    let dbid_32 : (length d.dbid == 32) ≡ true = ground (arith, h.dbid_length) in
    rw
      (
        page_header-append d (write_signed crc ++ rest),
        read_len-write_len star (pos 7) _ (λ e. omega arith) refl,
        read_str-write_str 64 raftlog_str _ (omega arith) (omega arith) raftlog_str-NoNul,
        raftlog_str-eq,
        read_signed-write_signed (2 ^ 63) (pos 1) _ (omega arith) refl,
        read_str-write_str 64 d.dbid _ (omega (arith, h.dbid_length)) (omega (arith, h.dbid_length))
            h.dbid_string,
        dbid_32,
        read_signed-write_signed (2 ^ 31) d.node_id _ (omega arith) h.node_fits,
        read_signed-write_signed (2 ^ 63) d.prev_log_term _ (omega arith) h.term_fits,
        read_signed-write_signed (2 ^ 63) (pos d.prev_log_idx) _ (omega arith)
            (lt→fits d.prev_log_idx (2 ^ 63) h.idx_fits),
        read_signed-write_signed (2 ^ 63) crc rest (omega arith) k,
      )
      refl
