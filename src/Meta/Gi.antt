-- ===== src/Meta/Gi.antt =====
-- user/shared/drbdmeta.c: the commands on the generation identifiers. `set-gi` takes one text of
-- fields that `:` separates; a field left empty keeps its value, and a text that ends early keeps
-- the rest.
pub mod Laws
use drbd_utils.Prelude.{
  Text, ℕ, zero, suc, ◌+◌, ◌-◌, ◌^◌, Bool, true, false, List, [], ◌∷◌, Option, none, some, not, ltb,
  ◌==◌, if◌then◌else◌, Result, ok, stop, exit, ◌>>=◌, ◌>>◌, exit_if,
}
use drbd_utils.Headers.{Headers}
use drbd_utils.Meta.Types.{PeerMd, MdCpu}
use drbd_utils.Meta.Flags.{has, raise, lower}
use drbd_utils.Meta.Convert.{connected_ind, full_sync, peer_out_dated}

-- strsep(s, ":") for a pointer that is not null: the token, and what `s` points to afterwards, with
-- `none` for a null pointer.
unfoldable pub strsep : Text → Text × Option Text
strsep [] = ([], none)
strsep (c ∷ cs) = let (t, rest) = strsep cs in if c == b':' then ([], some cs) else (c ∷ t, rest)

-- A result of strtoul() that the code accepts: all of the text is read, and errno is 0.
module _ (number : ℕ → Text → Option ℕ) where
  -- One field: whether there was one, the rest, and the value.
  unfoldable pub u32_value : Text → ℕ → Result ℕ
  u32_value [] val = ok val
  u32_value (c ∷ cs) val = elim (number 0 (c ∷ cs)) [
    | none ↦ stop (exit 10)
    | some v ↦ if ltb (2 ^ 32 - 1) v then stop (exit 10) else ok v
  ]

  unfoldable pub u64_value : Text → ℕ → Result ℕ
  u64_value [] val = ok val
  u64_value (c ∷ cs) val = elim (number 16 (c ∷ cs)) [ none ↦ stop (exit 10) | some v ↦ ok v ]

  unfoldable pub m_strsep_u32 : Option Text → ℕ → Result (Bool × Option Text × ℕ)
  unfolding u32_value strsep
  m_strsep_u32 none val = ok (false, none, val)
  m_strsep_u32 (some s) val = do let (t, rest) = strsep s; v ← u32_value t val; ok (true, rest, v)

  unfoldable pub m_strsep_u64 : Option Text → ℕ → Result (Bool × Option Text × ℕ)
  unfolding u64_value strsep
  m_strsep_u64 none val = ok (false, none, val)
  m_strsep_u64 (some s) val = do let (t, rest) = strsep s; v ← u64_value t val; ok (true, rest, v)

  -- `mask` is one flag, by its bit number.
  unfoldable pub m_strsep_bit : Option Text → ℕ → ℕ → Result (Bool × Option Text × ℕ)
  unfolding m_strsep_u32
  m_strsep_bit s val n = do
    let d = if has val n then 1 else 0
    (rv, rest, d') ← m_strsep_u32 s d
    exit_if (ltb 1 d') 10
    ok (rv, rest, if d' == 0 then lower val n else raise val n)

  -- A step of `set-gi` at the rest of the text and the meta data; `false` leaves the chain.
  abbrev pub Step : Type 0
  Step = Option Text → MdCpu → Result (Bool × Option Text × MdCpu)

  abbrev pub run_steps : List Step → Option Text → MdCpu → Result MdCpu
  run_steps [] s md = ok md
  run_steps (f ∷ fs) s md =
      f s md >>= λ r. let rest = run_steps fs r.1 r.2 in if r.0 then rest else ok r.2

  unfoldable pub set_current : Step
  set_current s md = do
    (go, rest, v) ← m_strsep_u64 s md.current_uuid
    ok (go, rest, record md { current_uuid = v })

  abbrev pub put_peer : ℕ → PeerMd → MdCpu → MdCpu
  put_peer i p md = record md { peers = λ q. if q == i then p else md.peers q }

  unfoldable pub set_bitmap : ℕ → Step
  set_bitmap i s md = do
    (go, rest, v) ← m_strsep_u64 s (md.peers i).bitmap_uuid
    ok (go, rest, put_peer i (record (md.peers i) { bitmap_uuid = v }) md)

  unfoldable pub set_history : ℕ → Step
  set_history k s md = do
    (go, rest, v) ← m_strsep_u64 s (md.history_uuids k)
    ok (go, rest, record md { history_uuids = λ q. if q == k then v else md.history_uuids q })

  unfoldable pub set_flag : ℕ → Step
  set_flag n s md = do
    (go, rest, v) ← m_strsep_bit s md.flags n
    ok (go, rest, record md { flags = v })

  unfoldable pub set_peer_flag : ℕ → ℕ → Step
  set_peer_flag i n s md = do
    (go, rest, v) ← m_strsep_bit s (md.peers i).flags n
    ok (go, rest, put_peer i (record (md.peers i) { flags = v }) md)

  -- A word of `gc`, by enum MetaDataIndex: Flags is 0.
  set_gc_word : ℕ → Step
  set_gc_word k s md = do
    (go, rest, v) ← m_strsep_u32 s (md.gc k)
    ok (go, rest, record md { gc = λ q. if q == k then v else md.gc q })

  set_gc_flag : ℕ → Step
  set_gc_flag n s md = do
    (go, rest, v) ← m_strsep_bit s (md.gc 0) n
    ok (go, rest, record md { gc = λ q. if q == 0 then v else md.gc q })

  -- The loop over the history, for `i` from `HISTORY_UUIDS_V08 - left`.
  unfoldable pub history_steps : ℕ → ℕ → List Step → List Step
  history_steps zero i rest = rest
  history_steps (suc left) i rest = set_history i ∷ history_steps left (i + 1) rest

  unfoldable pub m_set_gc : Headers → Text → MdCpu → Result MdCpu
  unfolding set_gc_word set_gc_flag m_strsep_bit
  m_set_gc h arg md =
      run_steps
        (set_gc_flag h.consistent
          ∷ set_gc_word 1
          ∷ set_gc_word 2
          ∷ set_gc_word 3
          ∷ set_gc_word 4
          ∷ set_gc_flag h.primary_ind
          ∷ set_gc_flag connected_ind
          ∷ set_gc_flag full_sync
          ∷ [])
        (some arg) md

  unfoldable pub uuid_steps : Headers → ℕ → List Step
  unfolding set_current set_bitmap set_flag set_history history_steps
  uuid_steps h node_id =
      set_current
      ∷ set_bitmap node_id
      ∷ history_steps h.history_uuids_v08 0 (
          set_flag h.consistent
          ∷ set_flag h.was_up_to_date
          ∷ set_flag h.primary_ind
          ∷ set_flag connected_ind
          ∷ set_flag full_sync
          ∷ set_flag peer_out_dated
          ∷ set_flag h.crashed_primary
          ∷ [])

  unfoldable pub m_set_uuid : Headers → ℕ → Text → MdCpu → Result MdCpu
  unfolding uuid_steps
  m_set_uuid h node_id arg md = run_steps (uuid_steps h node_id) (some arg) md

  unfoldable pub v9_uuid_steps : Headers → ℕ → List Step
  unfolding set_current set_bitmap set_flag set_peer_flag set_history history_steps
  v9_uuid_steps h node_id =
      set_current
      ∷ set_bitmap node_id
      ∷ history_steps h.history_uuids_v08 0 (
          set_flag h.consistent
          ∷ set_flag h.was_up_to_date
          ∷ set_flag h.primary_ind
          ∷ set_flag h.crashed_primary
          ∷ set_flag h.al_clean
          ∷ set_flag h.al_disabled
          ∷ set_flag h.primary_lost_quorum
          ∷ set_peer_flag node_id h.peer_connected
          ∷ set_peer_flag node_id h.peer_outdated
          ∷ set_peer_flag node_id h.peer_fencing
          ∷ set_peer_flag node_id h.peer_full_sync
          ∷ set_peer_flag node_id h.peer_device_seen
          ∷ [])

  unfoldable pub m_set_v9_uuid : Headers → ℕ → Text → MdCpu → Result MdCpu
  unfolding v9_uuid_steps
  m_set_v9_uuid h node_id arg md = run_steps (v9_uuid_steps h node_id) (some arg) md

-- Each returns an exit code and the meta data.
unfoldable pub m_outdate_gc : MdCpu → ℕ × MdCpu
m_outdate_gc md = (5, md)

unfoldable pub m_outdate_uuid : Headers → MdCpu → ℕ × MdCpu
m_outdate_uuid h md =
    if not (has md.flags h.consistent)
    then (5, md)
    else (0, record md { flags = lower md.flags h.was_up_to_date })

unfoldable pub m_invalidate_gc : Headers → MdCpu → ℕ × MdCpu
m_invalidate_gc h md = (
  5,
  record md {
    gc = λ i. if i == 0 then raise (lower (md.gc 0) h.consistent) full_sync else md.gc i;
  },
)

unfoldable pub m_invalidate_uuid : Headers → MdCpu → ℕ × MdCpu
m_invalidate_uuid h md = (
  0,
  record md { flags = raise (lower (lower md.flags h.consistent) h.was_up_to_date) full_sync },
)

unfoldable pub m_invalidate_v9_uuid : Headers → MdCpu → ℕ × MdCpu
m_invalidate_v9_uuid h md = (
  0,
  record md {
    flags = lower (lower md.flags h.consistent) h.was_up_to_date;
    peers = λ p.
        if ltb p h.node_id_max
        then record (md.peers p) { flags = raise (md.peers p).flags h.peer_full_sync }
        else md.peers p;
  },
)
