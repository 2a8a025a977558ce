-- ===== src/Adm/Volumes/Steps.antt =====
-- The loop of compare_volumes() in user/v9/drbdadm_adjust.c, round by round: what it leaves at each
-- volume number.
use drbd_utils.Prelude.{
  IsAbove, IsRising, ℕ, ◌≡◌, refl, ap, ◌∙◌, Bool, true, false, List, ◌∷◌, Option, none, some, Text,
  Bool-cases, ==_iff, inl, inr, ◌==◌, arith, ok, ◌>>=◌, Ends, >>=-Ends,
}
use mathlib.Core.Path.{subst}
use drbd_utils.Adm.Volumes.{
  Volume, Contexts, insert_volume, matching_volume, new_volume,
  new_to_be_deleted_minor_from_template, compare_volume, merge_volumes,
}
use drbd_utils.Adm.Volumes.Insert.{
  vnrs, above_none, insert_volume_at, insert_volume-IsRising, IsApart,
}

pub IsApart-head :
    (kern deleted : List Volume) (k : Volume)
    → IsApart deleted (k ∷ kern)
    → matching_volume k.vnr deleted ≡ none
unfolding matching_volume
IsApart-head kern deleted k apart = apart k.vnr k (ground arith)

pub IsApart-tail :
    (kern deleted : List Volume) (k : Volume)
    → IsAbove k.vnr (vnrs kern)
    → IsApart deleted (k ∷ kern)
    → IsApart deleted kern
unfolding matching_volume
IsApart-tail kern deleted k above apart v d e =
    let no_kern = above_none k.vnr k.vnr kern (omega arith) above in
    elim (Bool-cases (k.vnr == v)) [
      | inl same ↦
          let no_kern' =
            subst (λ n. matching_volume n kern ≡ none) ((==_iff k.vnr v).0 same) no_kern in
          absurd (cc)
      | inr other ↦ apart v d (rw other e)
    ]

pub insert-IsApart :
    (kern deleted : List Volume) (k : Volume)
    → IsAbove k.vnr (vnrs kern)
    → IsRising (vnrs deleted)
    → IsApart deleted (k ∷ kern)
    → IsRising (vnrs (insert_volume deleted (new_to_be_deleted_minor_from_template k)))
      × IsApart (insert_volume deleted (new_to_be_deleted_minor_from_template k)) kern
unfolding new_to_be_deleted_minor_from_template
insert-IsApart kern deleted k above rd apart =
    let t = new_to_be_deleted_minor_from_template k in
    let no_del = IsApart-head kern deleted k apart in
    let no_kern = above_none k.vnr k.vnr kern (omega arith) above in
    (
      insert_volume-IsRising deleted t no_del rd,
      λ v d e.
          let old = IsApart-tail kern deleted k above apart v d e in
          let at_v = insert_volume_at v deleted t no_del in
          elim (Bool-cases (k.vnr == v)) [
            | inl same ↦
                let no_kern' =
                  subst (λ n. matching_volume n kern ≡ none) ((==_iff k.vnr v).0 same) no_kern in
                absurd (cc)
            | inr other ↦ at_v ∙ rw other old
          ],
    )

module _ (is_same_disk : Text → Text → Bool) (contexts : Contexts) where
  -- What stands at a number after compare_volumes(), from the configured and the running volume there:
  -- a new volume is flagged, one that is only running is to be deleted, and two are compared.
  abbrev pub IsCompared : Option Volume → Option Volume → Option Volume → Type 0
  IsCompared none none x = x ≡ none
  IsCompared (some c) none x = x ≡ some (new_volume c)
  IsCompared none (some k) x = x ≡ some (new_to_be_deleted_minor_from_template k)
  IsCompared (some c) (some k) x =
      (p : Volume × Volume) × (compare_volume is_same_disk contexts c k ≡ ok p) × (x ≡ some p.0)

  -- The same for the loop: the volume of the first list, and the one in the list of the deleted.
  abbrev pub IsMerged :
      Option Volume → Option Volume → Option Volume → Option Volume → Option Volume → Type 0
  IsMerged none none old x d = (x ≡ none) × (d ≡ old)
  IsMerged (some c) none old x d = (x ≡ some (new_volume c)) × (d ≡ old)
  IsMerged none (some k) old x d = (x ≡ none) × (d ≡ some (new_to_be_deleted_minor_from_template k))
  IsMerged (some c) (some k) old x d =
      ((p : Volume × Volume) × (compare_volume is_same_disk contexts c k ≡ ok p) × (x ≡ some p.0))
      × (d ≡ old)

  pub record Merges (conf kern deleted : List Volume) (r : List Volume × List Volume × List Volume)
      : Type 0 where
    pub same_vnrs : vnrs r.0 ≡ vnrs conf
    pub rising : IsRising (vnrs r.2)
    pub at :
        (v : ℕ)
        → IsMerged
            (matching_volume v conf)
            (matching_volume v kern)
            (matching_volume v deleted)
            (matching_volume v r.0)
            (matching_volume v r.2)

  drop_kern :
      (conf kern deleted : List Volume) (k : Volume) (r : List Volume × List Volume × List Volume)
      → matching_volume k.vnr conf ≡ none
      → matching_volume k.vnr kern ≡ none
      → matching_volume k.vnr deleted ≡ none
      → Merges conf kern (insert_volume deleted (new_to_be_deleted_minor_from_template k)) r
      → Merges conf (k ∷ kern) deleted (r.0, k ∷ r.1, r.2)
  unfolding matching_volume new_to_be_deleted_minor_from_template
  drop_kern conf kern deleted k r no_conf no_kern no_del m = record {
    same_vnrs = m.same_vnrs;
    rising = m.rising;
    at = λ v.
        let at_v = insert_volume_at v deleted (new_to_be_deleted_minor_from_template k) no_del in
        let old = m.at v in
        elim (Bool-cases (k.vnr == v)) [
          | inl same ↦
              let e = (==_iff k.vnr v).0 same in
              let c = subst (λ n. matching_volume n conf ≡ none) e no_conf in
              let d = subst (λ n. matching_volume n kern ≡ none) e no_kern in
              let old' = rw (c, d, at_v, same) at old in rw (c, same) old'
          | inr other ↦ rw other (rw (at_v, other) at old)
        ];
  }

  take_conf :
      (conf kern deleted : List Volume) (c : Volume) (r : List Volume × List Volume × List Volume)
      → matching_volume c.vnr conf ≡ none
      → matching_volume c.vnr kern ≡ none
      → Merges conf kern deleted r
      → Merges (c ∷ conf) kern deleted (new_volume c ∷ r.0, r.1, r.2)
  unfolding matching_volume new_volume
  take_conf conf kern deleted c r no_conf no_kern m = record {
    same_vnrs = ap (λ ns. c.vnr ∷ ns) m.same_vnrs;
    rising = m.rising;
    at = λ v.
        let old = m.at v in
        elim (Bool-cases (c.vnr == v)) [
          | inl same ↦
              let e = (==_iff c.vnr v).0 same in
              let a = subst (λ n. matching_volume n conf ≡ none) e no_conf in
              let b = subst (λ n. matching_volume n kern ≡ none) e no_kern in
              let old' = rw (a, b) at old in rw (b, same) (refl, old'.1)
          | inr other ↦ rw other old
        ];
  }

  pub drop_step :
      (conf kern deleted : List Volume) (k : Volume)
      → matching_volume k.vnr conf ≡ none
      → IsAbove k.vnr (vnrs kern)
      → IsApart deleted (k ∷ kern)
      → Ends (Merges conf kern (insert_volume deleted (new_to_be_deleted_minor_from_template k))) (
          merge_volumes is_same_disk contexts conf kern
            (insert_volume deleted (new_to_be_deleted_minor_from_template k)))
      → Ends (Merges conf (k ∷ kern) deleted) (
          merge_volumes is_same_disk contexts conf kern
            (insert_volume deleted (new_to_be_deleted_minor_from_template k))
          >>= λ r. ok (r.0, k ∷ r.1, r.2))
  drop_step conf kern deleted k no_conf above apart rest =
      let no_kern = above_none k.vnr k.vnr kern (omega arith) above in
      let no_del = IsApart-head kern deleted k apart in
      >>=-Ends
        (merge_volumes is_same_disk contexts conf kern
          (insert_volume deleted (new_to_be_deleted_minor_from_template k)))
        (λ r. ok (r.0, k ∷ r.1, r.2)) rest
        (λ r m.
          ((r.0, k ∷ r.1, r.2), refl, drop_kern conf kern deleted k r no_conf no_kern no_del m))

  pub take_step :
      (conf kern deleted : List Volume) (c : Volume)
      → IsAbove c.vnr (vnrs conf)
      → matching_volume c.vnr kern ≡ none
      → Ends (Merges conf kern deleted) (merge_volumes is_same_disk contexts conf kern deleted)
      → Ends (Merges (c ∷ conf) kern deleted) (
          merge_volumes is_same_disk contexts conf kern deleted >>= λ r.
          ok (new_volume c ∷ r.0, r.1, r.2))
  take_step conf kern deleted c above no_kern rest =
      let no_conf = above_none c.vnr c.vnr conf (omega arith) above in
      >>=-Ends (merge_volumes is_same_disk contexts conf kern deleted)
        (λ r. ok (new_volume c ∷ r.0, r.1, r.2)) rest
        (λ r m.
          ((new_volume c ∷ r.0, r.1, r.2), refl, take_conf conf kern deleted c r no_conf no_kern m))

  pub take_both :
      (conf kern deleted : List Volume) (c k : Volume) (p : Volume × Volume)
      (r : List Volume × List Volume × List Volume)
      → k.vnr ≡ c.vnr
      → compare_volume is_same_disk contexts c k ≡ ok p
      → p.0.vnr ≡ c.vnr
      → matching_volume c.vnr conf ≡ none
      → matching_volume c.vnr kern ≡ none
      → Merges conf kern deleted r
      → Merges (c ∷ conf) (k ∷ kern) deleted (p.0 ∷ r.0, p.1 ∷ r.1, r.2)
  unfolding matching_volume
  take_both conf kern deleted c k p r kc run pc no_conf no_kern m = record {
    same_vnrs = rw (pc, m.same_vnrs) refl;
    rising = m.rising;
    at = λ v.
        let old = m.at v in
        elim (Bool-cases (c.vnr == v)) [
          | inl same ↦
              let e = (==_iff c.vnr v).0 same in
              let a = subst (λ n. matching_volume n conf ≡ none) e no_conf in
              let b = subst (λ n. matching_volume n kern ≡ none) e no_kern in
              let old' = rw (a, b) at old in
              let same_k : (k.vnr == v) ≡ true = ground (arith, kc) in
              let same_p : (p.0.vnr == v) ≡ true = ground (arith, pc) in
              rw (same, same_k, same_p) ((p, run, refl), old'.1)
          | inr other ↦
              let other_k : (k.vnr == v) ≡ false = ground (arith, kc) in
              let other_p : (p.0.vnr == v) ≡ false = ground (arith, pc) in
              rw (other, other_k, other_p) old
        ];
  }
