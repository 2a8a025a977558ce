-- ===== src/Adm/Volumes/Merge.antt =====
-- compare_volumes() of user/v9/drbdadm_adjust.c against the two sets of volumes, number by number.
use drbd_utils.Prelude.{
  compare-cases, IsRising, IsAbove-trans, ℕ, ◌≡◌, refl, Bool, List, [], ◌∷◌, Option, none, some,
  Text, inl, inr, arith, ok, ◌>>=◌, Ends, >>=-Ends,
}
use mathlib.Core.Path.{subst}
use drbd_utils.Adm.Volumes.{
  Volume, Contexts, insert_volume, insert_all, matching_volume,
  new_to_be_deleted_minor_from_template, compare_volume, merge_volumes, compare_volumes,
}
use drbd_utils.Adm.Volumes.Insert.{vnrs, above_none, or_else, IsApart, insert_all_at}
use drbd_utils.Adm.Volumes.Steps.{
  IsApart-tail, insert-IsApart, IsCompared, IsMerged, Merges, drop_step, take_step, take_both,
}

abbrev pub AllKnown : (Volume → Type 0) → List Volume → Type 0
AllKnown IsKnown [] = Unit
AllKnown IsKnown (v ∷ vols) = IsKnown v × AllKnown IsKnown vols

module _ (is_same_disk : Text → Text → Bool) (contexts : Contexts) where
  -- The comparison of two volumes goes on, and keeps the number.
  abbrev pub Compares : (Volume → Type 0) → Type 0
  Compares IsKnown =
      (c k : Volume)
      → IsKnown c
      → IsKnown k
      → Ends (λ (p : Volume × Volume). p.0.vnr ≡ c.vnr) (compare_volume is_same_disk contexts c k)

  module _ (IsKnown : Volume → Type 0) (compares : Compares IsKnown) where
    compared :
        (c k : Volume)
        → IsKnown c
        → IsKnown k
        → Ends
            (λ (p : Volume × Volume).
              (compare_volume is_same_disk contexts c k ≡ ok p) × (p.0.vnr ≡ c.vnr))
            (compare_volume is_same_disk contexts c k)
    compared c k a b = let (p, run, same) = compares c k a b in (p, run, (run, same))

    merge-Merges :
        (conf kern deleted : List Volume)
        → AllKnown IsKnown conf
        → AllKnown IsKnown kern
        → IsRising (vnrs conf)
        → IsRising (vnrs kern)
        → IsRising (vnrs deleted)
        → IsApart deleted kern
        → Ends
            (Merges is_same_disk contexts conf kern deleted)
            (merge_volumes is_same_disk contexts conf kern deleted)
    unfolding merge_volumes matching_volume
    merge-Merges [] [] deleted kc kk rc rk rd apart =
        (([], [], deleted), refl, record { same_vnrs = refl; rising = rd; at = λ v. (refl, refl) })
    merge-Merges [] (k ∷ kern) deleted kc (known, kk) rc (above, rk) rd apart =
        let (rd', apart') = insert-IsApart kern deleted k above rd apart in
        drop_step is_same_disk contexts [] kern deleted k refl above apart (
          merge-Merges [] kern (insert_volume deleted (new_to_be_deleted_minor_from_template k)) kc
            kk rc rk rd' apart')
    merge-Merges (c ∷ conf) [] deleted (known, kc) kk (above, rc) rk rd apart =
        take_step is_same_disk contexts conf [] deleted c above refl
          (merge-Merges conf [] deleted kc kk rc rk rd apart)
    merge-Merges (c ∷ conf) (k ∷ kern) deleted (known, kc) (known', kk) (above, rc) (above', rk) rd
          apart =
        elim (compare-cases k.vnr c.vnr) [
          | inl (e, lt) ↦
              let (rd', apart') = insert-IsApart kern deleted k above' rd apart in
              let none_yet =
                above_none k.vnr k.vnr (c ∷ conf) (omega arith)
                  (lt, IsAbove-trans k.vnr c.vnr (vnrs conf) lt above) in
              let rest =
                merge-Merges (c ∷ conf) kern
                  (insert_volume deleted (new_to_be_deleted_minor_from_template k)) (known, kc) kk
                  (above, rc) rk rd' apart' in
              rw (merge_volumes, e)
                (drop_step is_same_disk contexts (c ∷ conf) kern deleted k none_yet above' apart
                  rest)
          | inr (inl (e, gt)) ↦
              let none_yet =
                above_none c.vnr c.vnr (k ∷ kern) (omega arith)
                  (gt, IsAbove-trans c.vnr k.vnr (vnrs kern) gt above') in
              rw (merge_volumes, e)
                (take_step is_same_disk contexts conf (k ∷ kern) deleted c above none_yet
                  (merge-Merges conf (k ∷ kern) deleted kc (known', kk) rc (above', rk) rd apart))
          | inr (inr (e, eq)) ↦
              let rest =
                merge-Merges conf kern deleted kc kk rc rk rd
                  (IsApart-tail kern deleted k above' apart) in
              let no_kern =
                subst (λ n. matching_volume n kern ≡ none) eq
                  (above_none k.vnr k.vnr kern (omega arith) above') in
              let no_conf = above_none c.vnr c.vnr conf (omega arith) above in
              rw (merge_volumes, e)
                (>>=-Ends (compare_volume is_same_disk contexts c k)
                  (λ v. merge_volumes is_same_disk contexts conf kern deleted >>= λ r.
                    ok (v.0 ∷ r.0, v.1 ∷ r.1, r.2))
                  (compared c k known known')
                  (λ p (run, pc).
                    >>=-Ends (merge_volumes is_same_disk contexts conf kern deleted)
                      (λ r. ok (p.0 ∷ r.0, p.1 ∷ r.1, r.2)) rest
                      (λ r m. (
                        (p.0 ∷ r.0, p.1 ∷ r.1, r.2),
                        refl,
                        take_both is_same_disk contexts conf kern deleted c k p r eq run pc no_conf
                            no_kern m,
                      ))))
        ]

    merged-IsCompared :
        (c k x d : Option Volume)
        → IsMerged is_same_disk contexts c k none x d
        → IsCompared is_same_disk contexts c k (or_else x d)
    merged-IsCompared none none x d (e, f) = rw (e, f) refl
    merged-IsCompared (some c) none x d (e, f) = rw e refl
    merged-IsCompared none (some k) x d (e, f) = rw (e, f) refl
    merged-IsCompared (some c) (some k) x d ((p, run, e), f) = (p, run, rw e refl)

    merged-IsApart :
        (c k x d : Option Volume) (v : Volume)
        → IsMerged is_same_disk contexts c k none x d
        → d ≡ some v
        → x ≡ none
    merged-IsApart none none x d v (e, f) g = e
    merged-IsApart (some c) none x d v (e, f) g = cc
    merged-IsApart none (some k) x d v (e, f) g = e
    merged-IsApart (some c) (some k) x d v (h, f) g = cc

    -- The call, where the comparison of two volumes goes on.
    pub compare_volumes-IsCompared :
        (conf kern : List Volume)
        → AllKnown IsKnown conf
        → AllKnown IsKnown kern
        → IsRising (vnrs conf)
        → IsRising (vnrs kern)
        → Ends
            (λ (r : List Volume × List Volume).
              IsRising (vnrs r.0)
              × ((v : ℕ)
                  → IsCompared is_same_disk contexts
                      (matching_volume v conf)
                      (matching_volume v kern)
                      (matching_volume v r.0)))
            (compare_volumes is_same_disk contexts conf kern)
    unfolding compare_volumes matching_volume
    compare_volumes-IsCompared conf kern kc kk rc rk =
        >>=-Ends (merge_volumes is_same_disk contexts conf kern [])
          (λ r. ok (insert_all r.0 r.2, r.1))
          (merge-Merges conf kern [] kc kk rc rk tt (λ v d e. refl))
          (λ r m.
            let rising : IsRising (vnrs r.0) = rw m.same_vnrs rc in
            let apart : IsApart r.0 r.2 = λ v d e.
              merged-IsApart (matching_volume v conf) (matching_volume v kern)
                (matching_volume v r.0) (matching_volume v r.2) d (m.at v) e in
            let (rising', all) = insert_all_at r.0 r.2 rising m.rising apart in
            (
              (insert_all r.0 r.2, r.1),
              refl,
              (
                rising',
                λ v. rw (all v) (
                    merged-IsCompared (matching_volume v conf) (matching_volume v kern)
                      (matching_volume v r.0) (matching_volume v r.2) (m.at v)),
              ),
            ))
