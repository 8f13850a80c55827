-- ===== src/Snapshot/Info.antt =====
-- The first part of the record comes back as it was saved.
use redisraft.Prelude.{
  ℕ, zero, suc, ◌-◌, ◌%◌, ◌^◌, ◌≤◌, ◌<◌, ◌≡◌, ◌≢◌, refl, true, some, List, [], ◌∷◌, leb, ltb,
  length, arith, ℤ, pos, negsuc, fits,
}
use redisraft.Rdb.{Stream, to_uint64, to_int, to_int-to_uint64, to_long-to_uint64}
use redisraft.NodeAddr.Parse.{NoNul, c_string-NoNul}
use redisraft.Snapshot.{
  CfgEntry, SnapshotInfo, save_cfg, save_ids, save_info, load_cfg, load_ids, load_info,
}

-- An `int` other than the marker.
abbrev pub IsNodeId : ℤ → Type 0
IsNodeId v = (v ≢ pos 0) × (fits (2 ^ 31) v ≡ true)

abbrev pub AllNodeIds : List ℤ → Type 0
AllNodeIds [] = Unit
AllNodeIds (v ∷ ids) = IsNodeId v × AllNodeIds ids

pub record IsCfgEntry (e : CfgEntry) : Type 0 where
  pub id_set : IsNodeId e.id
  pub voting_fits : fits (2 ^ 31) e.voting ≡ true
  pub host_string : NoNul e.addr.host
  pub host_fits : length e.addr.host < 256
  pub port_fits : e.addr.port < 2 ^ 16

abbrev pub AllCfgEntries : List CfgEntry → Type 0
AllCfgEntries [] = Unit
AllCfgEntries (e ∷ cfg) = IsCfgEntry e × AllCfgEntries cfg

pub record IsInfo (info : SnapshotInfo) : Type 0 where
  pub dbid_string : NoNul info.dbid
  pub dbid_fits : length info.dbid ≤ 32
  pub term_fits : fits (2 ^ 63) info.last_applied_term ≡ true
  pub idx_fits : fits (2 ^ 63) info.last_applied_idx ≡ true
  pub cfg_valid : AllCfgEntries info.cfg
  pub ids_valid : AllNodeIds info.used_node_ids

-- what is saved of a node id is not the marker
to_uint64-suc : (v : ℤ) → IsNodeId v → (n : ℕ) × (to_uint64 v ≡ suc n)
to_uint64-suc (pos zero) h = absurd (h.0 refl)
to_uint64-suc (pos (suc n)) h = (n, let l = h.1 in ground arith)
to_uint64-suc (negsuc n) h = (2 ^ 64 - 2 - n, let l = h.1 in ground arith)

load_ids-save_ids :
    (ids : List ℤ) (rest : Stream)
    → AllNodeIds ids
    → load_ids (save_ids ids rest) ≡ some (ids, rest)
unfolding load_ids save_ids
load_ids-save_ids [] rest h = refl
load_ids-save_ids (v ∷ ids) rest (h, hs) =
    let (n, e) = to_uint64-suc v h in
    let back : to_int (suc n) ≡ v = rw (← e) (to_int-to_uint64 v h.1) in
    rw (e, load_ids-save_ids ids rest hs, back) refl

load_cfg-save_cfg :
    (cfg : List CfgEntry) (rest : Stream)
    → AllCfgEntries cfg
    → load_cfg (save_cfg cfg rest) ≡ some (cfg, rest)
unfolding load_cfg save_cfg
load_cfg-save_cfg [] rest h = refl
load_cfg-save_cfg (e ∷ cfg) rest (h, hs) =
    let (n, id) = to_uint64-suc e.id h.id_set in
    let back : to_int (suc n) ≡ e.id = rw (← id) (to_int-to_uint64 e.id h.id_set.1) in
    let port : e.addr.port % 2 ^ 16 ≡ e.addr.port = omega (arith, h.port_fits) in
    let short : ltb (length e.addr.host) 256 ≡ true = ground (arith, h.host_fits) in
    rw
      (
        id,
        load_cfg-save_cfg cfg rest hs,
        c_string-NoNul e.addr.host h.host_string,
        c_string-NoNul e.addr.host h.host_string,
        short,
        back,
        to_int-to_uint64 e.voting h.voting_fits,
        port,
      )
      refl

pub load_info-save_info :
    (old info : SnapshotInfo) (rest : Stream)
    → IsInfo info
    → load_info old (save_info info rest) ≡ some (record info { loaded = old.loaded }, rest)
unfolding load_info save_info
load_info-save_info old info rest h =
    let short : leb (length info.dbid) 32 ≡ true = ground (arith, h.dbid_fits) in
    rw
      (
        c_string-NoNul info.dbid h.dbid_string,
        load_cfg-save_cfg info.cfg (save_ids info.used_node_ids rest) h.cfg_valid,
        load_ids-save_ids info.used_node_ids rest h.ids_valid,
        short,
        to_long-to_uint64 info.last_applied_term h.term_fits,
        to_long-to_uint64 info.last_applied_idx h.idx_fits,
        c_string-NoNul info.dbid h.dbid_string,
      )
      refl
