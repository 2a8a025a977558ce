-- ===== src/Adm/Hosts.antt =====
-- user/v9/drbdadm_postparse.c: the volumes that two hosts of a resource have.
pub mod Sets
use drbd_utils.Prelude.{ℕ, Bool, true, false, not, ◌&&◌, List, [], ◌∷◌, if◌then◌else◌}
use Prim.Native.Nat.{compare, Ordering}

-- struct d_volume, as far as the check reads it
pub record HostVolume : Type 0 where
  pub vnr : ℕ
  pub implicit : Bool

abbrev same_flag : Bool → Bool → Bool
same_flag true b = b
same_flag false b = not b

-- The loop; the result is config_valid. A round here is one round of one of its inner loops, or the
-- comparison at its end.
unfoldable pub compare_sets : Bool → List HostVolume → List HostVolume → Bool → Bool
compare_sets compare_stacked [] [] config_valid = config_valid
compare_sets compare_stacked (a ∷ xs) [] config_valid = compare_sets compare_stacked xs [] false
compare_sets compare_stacked [] (b ∷ ys) config_valid =
    compare_sets compare_stacked [] ys (compare_stacked && config_valid)
compare_sets compare_stacked (a ∷ xs) (b ∷ ys) config_valid = elim (compare a.vnr b.vnr) [
  | Ordering.lt ↦ compare_sets compare_stacked xs (b ∷ ys) false
  | Ordering.gt ↦ compare_sets compare_stacked (a ∷ xs) ys (compare_stacked && config_valid)
  | Ordering.eq ↦
      compare_sets compare_stacked xs ys (same_flag a.implicit b.implicit && config_valid)
]

-- `same_host` is host1 == host2.
unfoldable pub check_volume_sets_equal :
    Bool → Bool → List HostVolume → List HostVolume → Bool → Bool
unfolding compare_sets
check_volume_sets_equal same_host compare_stacked a b config_valid =
    if same_host then config_valid else compare_sets compare_stacked a b config_valid
