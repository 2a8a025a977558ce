-- ===== src/Tests/Mesh.antt =====
-- A mesh of three hosts, two of which are the same.
use drbd_utils.Prelude.{
  ℕ, ◌≡◌, refl, Text, true, false, List, [], ◌∷◌, some, Result, ok, stop, Ends, ◌==◌,
}
use drbd_utils.Adm.Mesh.{Host, Link, Mesh, find_host_info_by_name, create_connections_from_mesh}
use drbd_utils.Adm.Mesh.Joined.{IsBefore, IsJoined, create_connections_from_mesh-joins}

abbrev host : ℕ → Host
host n = record { ident = n; on_hosts = (n ∷ 46 ∷ 120 ∷ []) ∷ []; proxy_compat_only = false }

abbrev hosts : List Host
hosts = host 97 ∷ host 98 ∷ host 99 ∷ []

abbrev names : List Text
names = (97 ∷ []) ∷ (65 ∷ 46 ∷ 88 ∷ []) ∷ (99 ∷ []) ∷ (98 ∷ []) ∷ []

abbrev nothing : Mesh
nothing = record { links = []; config_valid = true }

create_connections_from_mesh-joins_example :
    Ends
      (λ (m : Mesh).
        ((h k : Host) → IsJoined h k [] → IsJoined h k m.links)
        × ((a b : Text) (h k : Host)
            → IsBefore a b names
            → find_host_info_by_name hosts a ≡ some h
            → find_host_info_by_name hosts b ≡ some k
            → (h.ident == k.ident) ≡ false
            → IsJoined h k m.links))
      (create_connections_from_mesh [] hosts [] names nothing)
unfolding find_host_info_by_name
create_connections_from_mesh-joins_example =
    create_connections_from_mesh-joins [] hosts [] names nothing tt
      ((host 97, refl), ((host 97, refl), ((host 99, refl), ((host 98, refl), tt))))

abbrev ends_of : List Link → List (ℕ × ℕ)
ends_of [] = []
ends_of (l ∷ links) = (l.first.ident, l.second.ident) ∷ ends_of links

abbrev ends : Result Mesh → List (ℕ × ℕ)
ends (stop code) = []
ends (ok m) = ends_of m.links

mesh_ends :
    ends (create_connections_from_mesh [] hosts [] names nothing)
    ≡ (97, 99) ∷ (97, 98) ∷ (97, 99) ∷ (97, 98) ∷ (99, 98) ∷ []
unfolding create_connections_from_mesh
mesh_ends = refl
