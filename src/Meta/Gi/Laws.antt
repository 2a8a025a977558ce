-- ===== src/Meta/Gi/Laws.antt =====
-- Texts that change nothing, and what invalidation and outdating do to the flags.
use drbd_utils.Prelude.{
  Text, ℕ, zero, suc, ◌+◌, ◌^◌, ◌<◌, ◌≡◌, ◌≢◌, refl, sym, ap, ◌∙◌, fun_ext, Bool, true, false, List,
  [], ◌∷◌, Option, none, some, ltb, ◌==◌, ==_iff, if◌then◌else◌, Bool-cases, inl, inr, ok, ◌>>◌,
  exit_if, arith,
}
use drbd_utils.Headers.{Headers}
use drbd_utils.Meta.Types.{PeerMd, MdCpu}
use drbd_utils.Meta.Flags.{has, raise, lower}
use drbd_utils.Meta.Flags.Laws.{raise_self, lower_self, has-raise, has-lower, lower-lt}
use drbd_utils.Meta.Convert.{connected_ind, full_sync, peer_out_dated}
use drbd_utils.Meta.Gi.{
  m_strsep_u64, m_strsep_bit, Step, run_steps, set_current, set_bitmap, set_history, set_flag,
  set_peer_flag, put_peer, history_steps, uuid_steps, v9_uuid_steps, m_set_uuid, m_set_v9_uuid,
  m_outdate_uuid, m_invalidate_uuid,
}

array_same {ℓ} :
    {A : Type ℓ} (a : ℕ → A) (k : ℕ) {v : A} → v ≡ a k → (λ q. if q == k then v else a q) ≡ a
array_same a k {v} e = fun_ext λ q. elim (Bool-cases (q == k)) [
  | inl same ↦ rw same (e ∙ ap a (sym ((==_iff q k).0 same)))
  | inr other ↦ rw other
]

-- The value that m_strsep_bit() stores for the bit that it found.
abbrev again : ℕ → ℕ → ℕ
again x n = if (if has x n then 1 else 0) == 0 then lower x n else raise x n

-- The rest of m_strsep_bit() when the field is missing or empty.
bit_again :
    (x n : ℕ) (r : Bool) (s : Option Text)
    → x < 2 ^ 32
    → ◌>>◌ {Y = Bool × Option Text × ℕ}
        (exit_if (ltb 1 (if has x n then 1 else 0)) 10)
        (ok (r, s, again x n))
      ≡ ok (r, s, x)
bit_again x n r s h = elim (Bool-cases (has x n)) [
  | inl e ↦ rw e (rw (raise_self x n e))
  | inr e ↦ rw e (rw (lower_self x n h e))
]

module _ (number : ℕ → Text → Option ℕ) where
  bit_none : (x n : ℕ) → x < 2 ^ 32 → m_strsep_bit number none x n ≡ ok (false, none, x)
  unfolding m_strsep_bit
  bit_none x n h = bit_again x n false none h

  bit_end : (x n : ℕ) → x < 2 ^ 32 → m_strsep_bit number (some []) x n ≡ ok (true, none, x)
  unfolding m_strsep_bit
  bit_end x n h = bit_again x n true none h

  bit_colon :
      (x n : ℕ) (s : Text)
      → x < 2 ^ 32
      → m_strsep_bit number (some (b':' ∷ s)) x n ≡ ok (true, some s, x)
  unfolding m_strsep_bit
  bit_colon x n s h = bit_again x n true (some s) h

  -- A step that keeps the meta data when its field is missing or empty.
  record IsIdle (md : MdCpu) (f : Step number) : Type 0 where
    on_none : f none md ≡ ok (false, none, md)
    on_end : f (some []) md ≡ ok (true, none, md)
    on_colon : (s : Text) → f (some (b':' ∷ s)) md ≡ ok (true, some s, md)

  abbrev AllIdle : MdCpu → List (Step number) → Type 0
  AllIdle md [] = Unit
  AllIdle md (f ∷ fs) = IsIdle md f × AllIdle md fs

  -- `n` separators.
  abbrev pub colons : ℕ → Text
  colons zero = []
  colons (suc n) = b':' ∷ colons n

  idle_none :
      (fs : List (Step number)) (md : MdCpu) → AllIdle md fs → run_steps number fs none md ≡ ok md
  idle_none [] md a = refl
  idle_none (f ∷ fs) md a = rw (a.0.on_none)

  idle_colons :
      (fs : List (Step number)) (md : MdCpu) (n : ℕ)
      → AllIdle md fs
      → run_steps number fs (some (colons n)) md ≡ ok md
  idle_colons [] md n a = refl
  idle_colons (f ∷ fs) md zero a = rw (a.0.on_end) (idle_none fs md a.1)
  idle_colons (f ∷ fs) md (suc n) a = rw (a.0.on_colon (colons n)) (idle_colons fs md n a.1)

  current-IsIdle : (md : MdCpu) → IsIdle md (set_current number)
  unfolding set_current m_strsep_u64
  current-IsIdle md = record { on_none = refl; on_end = refl; on_colon = λ s. refl }

  peer_same : (md : MdCpu) (i : ℕ) (p : PeerMd) → p ≡ md.peers i → put_peer number i p md ≡ md
  peer_same md i p e = λ j. record md { peers = array_same md.peers i e j }

  bitmap-IsIdle : (md : MdCpu) (i : ℕ) → IsIdle md (set_bitmap number i)
  unfolding set_bitmap m_strsep_u64
  bitmap-IsIdle md i =
      let same = peer_same md i (md.peers i) refl in
      record { on_none = rw same; on_end = rw same; on_colon = λ s. rw same }

  history-IsIdle : (md : MdCpu) (k : ℕ) → IsIdle md (set_history number k)
  unfolding set_history m_strsep_u64
  history-IsIdle md k =
      let same = array_same md.history_uuids k refl in
      record { on_none = rw same; on_end = rw same; on_colon = λ s. rw same }

  flag-IsIdle : (md : MdCpu) (n : ℕ) → md.flags < 2 ^ 32 → IsIdle md (set_flag number n)
  unfolding set_flag
  flag-IsIdle md n h = record {
    on_none = rw (bit_none md.flags n h);
    on_end = rw (bit_end md.flags n h);
    on_colon = λ s. rw (bit_colon md.flags n s h);
  }

  peer_flag-IsIdle :
      (md : MdCpu) (i n : ℕ) → (md.peers i).flags < 2 ^ 32 → IsIdle md (set_peer_flag number i n)
  unfolding set_peer_flag
  peer_flag-IsIdle md i n h =
      let x = (md.peers i).flags in
      let same = peer_same md i (md.peers i) refl in
      record {
        on_none = rw (bit_none x n h, same);
        on_end = rw (bit_end x n h, same);
        on_colon = λ s. rw (bit_colon x n s h, same);
      }

  history_all :
      (md : MdCpu) (left i : ℕ) (fs : List (Step number))
      → AllIdle md fs
      → AllIdle md (history_steps number left i fs)
  unfolding history_steps
  history_all md zero i fs a = a
  history_all md (suc left) i fs a = (history-IsIdle md i, history_all md left (i + 1) fs a)

  module _ (h : Headers) (id n : ℕ) (md : MdCpu) (fit : md.flags < 2 ^ 32) where
    -- `set-gi` with a text of separators alone keeps the meta data of format 8 as it is, however
    -- many there are. The flags fit 32 bits.
    pub m_set_uuid-colons : m_set_uuid number h id (colons n) md ≡ ok md
    unfolding m_set_uuid uuid_steps
    m_set_uuid-colons =
        let f = λ (k : ℕ). flag-IsIdle md k fit in
        idle_colons (uuid_steps number h id) md n (
          current-IsIdle md,
          (
            bitmap-IsIdle md id,
            history_all md h.history_uuids_v08 0 _ (
              f h.consistent,
              (
                f h.was_up_to_date,
                (
                  f h.primary_ind,
                  (f connected_ind, (f full_sync, (f peer_out_dated, (f h.crashed_primary, tt)))),
                ),
              ),
            ),
          ),
        )

    -- `set-gi` with a text of separators alone keeps the meta data of format 9 as it is, however
    -- many there are. The flags of the device and of the peer fit 32 bits.
    pub m_set_v9_uuid-colons :
        (md.peers id).flags < 2 ^ 32 → m_set_v9_uuid number h id (colons n) md ≡ ok md
    unfolding m_set_v9_uuid v9_uuid_steps
    m_set_v9_uuid-colons peer_fit =
        let f = λ (k : ℕ). flag-IsIdle md k fit in
        let p = λ (k : ℕ). peer_flag-IsIdle md id k peer_fit in
        idle_colons (v9_uuid_steps number h id) md n (
          current-IsIdle md,
          (
            bitmap-IsIdle md id,
            history_all md h.history_uuids_v08 0 _ (
              f h.consistent,
              (
                f h.was_up_to_date,
                (
                  f h.primary_ind,
                  (
                    f h.crashed_primary,
                    (
                      f h.al_clean,
                      (
                        f h.al_disabled,
                        (
                          f h.primary_lost_quorum,
                          (
                            p h.peer_connected,
                            (
                              p h.peer_outdated,
                              (p h.peer_fencing, (p h.peer_full_sync, (p h.peer_device_seen, tt))),
                            ),
                          ),
                        ),
                      ),
                    ),
                  ),
                ),
              ),
            ),
          ),
        )

module _ (h : Headers) (md : MdCpu) (fit : md.flags < 2 ^ 32) where
  -- Invalidation returns 0; it clears the flags of consistent and up-to-date data, requests a full
  -- sync, and keeps every other flag. After it the data cannot be outdated: m_outdate_uuid() returns
  -- 5 and changes nothing. The flags fit 32 bits, and MDF_CONSISTENT and MDF_WAS_UP_TO_DATE are
  -- other bits than MDF_FULL_SYNC.
  pub invalidate-outdate :
      h.consistent ≢ full_sync
      → h.was_up_to_date ≢ full_sync
      → let r = m_invalidate_uuid h md in
        (r.0 ≡ 0)
        × (has r.1.flags h.consistent ≡ false)
        × (has r.1.flags h.was_up_to_date ≡ false)
        × (has r.1.flags full_sync ≡ true)
        × ((k : ℕ)
            → k ≢ h.consistent
            → k ≢ h.was_up_to_date
            → k ≢ full_sync
            → has r.1.flags k ≡ has md.flags k)
        × (m_outdate_uuid h r.1 ≡ (5, r.1))
  unfolding m_invalidate_uuid m_outdate_uuid
  invalidate-outdate c w =
      let one = lower-lt md.flags h.consistent fit in
      let law = λ (k : ℕ).
        has-raise (lower (lower md.flags h.consistent) h.was_up_to_date) full_sync k
        ∙ ap (λ (t : Bool). if k == full_sync then true else t)
            (has-lower (lower md.flags h.consistent) h.was_up_to_date k one
              ∙ ap (λ (t : Bool). if k == h.was_up_to_date then false else t)
                  (has-lower md.flags h.consistent k fit)) in
      (
        refl,
        rw (law h.consistent) (ground arith),
        rw (law h.was_up_to_date) (ground arith),
        rw (law full_sync),
        λ k p q r. rw (law k) (ground arith),
        rw (law h.consistent) (ground arith),
      )
