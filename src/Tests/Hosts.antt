-- ===== src/Tests/Hosts.antt =====
-- A stacked resource with the volume 0 over one with the volumes 0 and 1.
use drbd_utils.Prelude.{ℕ, ◌≡◌, ◌↔◌, refl, true, false, List, [], ◌∷◌, arith}
use drbd_utils.Adm.Hosts.{HostVolume, check_volume_sets_equal}
use drbd_utils.Adm.Hosts.Sets.{at, Fits, check_volume_sets_equal-Fits}

abbrev upper : List HostVolume
upper = record { vnr = 0; implicit = false } ∷ []

abbrev lower : List HostVolume
lower = record { vnr = 0; implicit = false } ∷ record { vnr = 1; implicit = false } ∷ []

check_volume_sets_equal-Fits_example :
    (check_volume_sets_equal false true upper lower true ≡ true)
    ↔ ((true ≡ true) × ((n : ℕ) → Fits true (at n upper) (at n lower)))
check_volume_sets_equal-Fits_example =
    check_volume_sets_equal-Fits true upper lower true (tt, tt) ((omega arith, tt), (tt, tt))

run_sets : check_volume_sets_equal false true upper lower true ≡ true
unfolding check_volume_sets_equal
run_sets = refl

run_swapped : check_volume_sets_equal false true lower upper true ≡ false
unfolding check_volume_sets_equal
run_swapped = refl
