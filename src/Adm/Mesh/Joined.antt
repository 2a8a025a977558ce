-- ===== src/Adm/Mesh/Joined.antt =====
-- create_connections_from_mesh() of user/v9/drbdadm_postparse.c: the hosts that are joined.
use drbd_utils.Prelude.{
  Text, ◌⊎◌, ◌≡◌, refl, sym, ◌∙◌, Bool, true, false, List, [], ◌∷◌, ◌++◌, some, some_inj,
  Bool-cases, inl, inr, ◌==◌, Ends,
}
use mathlib.Core.Path.{subst}
use drbd_utils.Adm.Options.{DOption, FieldDef}
use drbd_utils.Adm.Options.Known.{AllFields}
use drbd_utils.Adm.Options.Expand.{expand_opts_lem}
use drbd_utils.Adm.Mesh.{
  Host, Link, Mesh, find_host_info_by_name, find_host_info_or_invalid, first_name_of, join_rest,
  create_connections_from_mesh,
}

-- The list has the name, or one name before the other.
abbrev pub HasName : Text → List Text → Type 0
HasName b [] = ⊥
HasName b (name ∷ rest) = (name ≡ b) ⊎ HasName b rest

abbrev pub IsBefore : Text → Text → List Text → Type 0
IsBefore a b [] = ⊥
IsBefore a b (name ∷ rest) = ((name ≡ a) × HasName b rest) ⊎ IsBefore a b rest

-- One of the connections has these ends.
abbrev pub IsJoined : Host → Host → List Link → Type 0
IsJoined h k [] = ⊥
IsJoined h k (link ∷ links) = ((link.first ≡ h) × (link.second ≡ k)) ⊎ IsJoined h k links

IsJoined-old : (h k : Host) (xs ys : List Link) → IsJoined h k xs → IsJoined h k (xs ++ ys)
IsJoined-old h k [] ys m = absurd m
IsJoined-old h k (x ∷ xs) ys (inl e) = inl e
IsJoined-old h k (x ∷ xs) ys (inr m) = inr (IsJoined-old h k xs ys m)

IsJoined-new :
    (h k : Host) (xs : List Link) (l : Link)
    → l.first ≡ h
    → l.second ≡ k
    → IsJoined h k (xs ++ (l ∷ []))
IsJoined-new h k [] l a b = inl (a, b)
IsJoined-new h k (x ∷ xs) l a b = inr (IsJoined-new h k xs l a b)

-- Every name is one of a host.
abbrev pub AllHosts : List Host → List Text → Type 0
AllHosts all_hosts [] = Unit
AllHosts all_hosts (name ∷ rest) =
    ((host : Host) × (find_host_info_by_name all_hosts name ≡ some host)) × AllHosts all_hosts rest

or_invalid-found :
    (all_hosts : List Host) (name : Text) (valid : Bool) (host : Host)
    → find_host_info_by_name all_hosts name ≡ some host
    → (find_host_info_or_invalid all_hosts name valid).0 ≡ some host
unfolding find_host_info_or_invalid
or_invalid-found all_hosts name valid host found = found

different : {b : Bool} → b ≡ true → b ≡ false → ⊥
different t f = let e = sym t ∙ f in cc

same_host :
    (all_hosts : List Host) (a b : Text) (h k : Host)
    → a ≡ b
    → find_host_info_by_name all_hosts a ≡ some h
    → find_host_info_by_name all_hosts b ≡ some k
    → h ≡ k
same_host all_hosts a b h k e f g =
    some_inj (sym f ∙ subst (λ (n : Text). find_host_info_by_name all_hosts n ≡ some k) (sym e) g)

module _ (fields : List FieldDef) (all_hosts : List Host) (net_options : List DOption) where
  -- From the connections `xs` to the connections `ys`: none is lost, and the host is joined to the
  -- other hosts of the names.
  record JoinsRest (hi1 : Host) (names : List Text) (xs ys : List Link) : Type 0 where
    kept : (h k : Host) → IsJoined h k xs → IsJoined h k ys
    joins :
        (b : Text) (hi2 : Host)
        → HasName b names
        → find_host_info_by_name all_hosts b ≡ some hi2
        → (hi1.ident == hi2.ident) ≡ false
        → IsJoined hi1 hi2 ys

  join_rest-JoinsRest :
      (hi1 : Host) (names : List Text) (mesh : Mesh)
      → AllFields fields net_options
      → AllHosts all_hosts names
      → Ends
          (λ (r : Mesh × Bool). (r.1 ≡ true) × JoinsRest hi1 names mesh.links r.0.links)
          (join_rest fields all_hosts net_options hi1 names mesh)
  unfolding join_rest
  join_rest-JoinsRest hi1 [] mesh known h =
      ((mesh, true), refl, (refl, record { kept = λ a b j. j; joins = λ b hi2 m e d. absurd m }))
  join_rest-JoinsRest hi1 (name ∷ rest) mesh known ((host, found), h) =
      let valid = (find_host_info_or_invalid all_hosts name mesh.config_valid).1 in
      let found' = or_invalid-found all_hosts name mesh.config_valid host found in
      elim (Bool-cases (hi1.ident == host.ident)) [
        | inl same ↦
            let (r, run, (done, j)) =
              join_rest-JoinsRest hi1 rest (record mesh { config_valid = valid }) known h in
            (
              r,
              rw (found', same, join_rest) run,
              (
                done,
                record {
                  kept = j.kept;
                  joins = λ b hi2 m e d. elim m [
                    | inl here ↦
                        let k = same_host all_hosts name b host hi2 here found e in
                        absurd
                          (different (subst (λ (x : Host). (hi1.ident == x.ident) ≡ true) k same) d)
                    | inr later ↦ j.joins b hi2 later e d
                  ];
                },
              ),
            )
        | inr other ↦
            let (o, expands, p) = expand_opts_lem fields false net_options [] valid known tt in
            let link : Link = record {
              first = hi1;
              second = host;
              first_name = first_name_of hi1.on_hosts;
              second_name = first_name_of host.on_hosts;
              net_options = o.0;
            } in
            let next : Mesh = record { links = mesh.links ++ (link ∷ []); config_valid = o.1 } in
            let (r, run, (done, j)) = join_rest-JoinsRest hi1 rest next known h in
            (
              r,
              rw (found', other, join_rest) (rw expands run),
              (
                done,
                record {
                  kept = λ a b m. j.kept a b (IsJoined-old a b mesh.links (link ∷ []) m);
                  joins = λ b hi2 m e d. elim m [
                    | inl here ↦
                        let k = same_host all_hosts name b host hi2 here found e in
                        j.kept hi1 hi2 (IsJoined-new hi1 hi2 mesh.links link refl k)
                    | inr later ↦ j.joins b hi2 later e d
                  ];
                },
              ),
            )
      ]

  -- When every name of a mesh is one of a host, and its options are ones of the table,
  -- create_connections_from_mesh() goes on to its end, keeps the connections that the resource has, and joins every two
  -- different hosts: where one name is before another, a connection leads from the host of the first to
  -- that of the other.
  pub create_connections_from_mesh-joins :
      (names : List Text) (mesh : Mesh)
      → AllFields fields net_options
      → AllHosts all_hosts names
      → Ends
          (λ (m : Mesh).
            ((h k : Host) → IsJoined h k mesh.links → IsJoined h k m.links)
            × ((a b : Text) (h k : Host)
                → IsBefore a b names
                → find_host_info_by_name all_hosts a ≡ some h
                → find_host_info_by_name all_hosts b ≡ some k
                → (h.ident == k.ident) ≡ false
                → IsJoined h k m.links))
          (create_connections_from_mesh fields all_hosts net_options names mesh)
  unfolding create_connections_from_mesh
  create_connections_from_mesh-joins [] mesh known h =
      (mesh, refl, ((λ a b j. j), (λ a b h k before f g d. absurd before)))
  create_connections_from_mesh-joins (name ∷ rest) mesh known ((host, found), h) =
      let start : Mesh = record mesh {
        config_valid = (find_host_info_or_invalid all_hosts name mesh.config_valid).1;
      } in
      let (r, run, (done, j)) = join_rest-JoinsRest host rest start known h in
      let (m, ends, (kept, joins)) = create_connections_from_mesh-joins rest r.0 known h in
      let found' = or_invalid-found all_hosts name mesh.config_valid host found in
      (
        m,
        rw (found', create_connections_from_mesh) (rw run (rw done ends)),
        (
          (λ a b old. kept a b (j.kept a b old)),
          (λ a b h k before f g d. elim before [
            | inl (here, later) ↦
                let same = same_host all_hosts name a host h here found f in
                subst (λ (x : Host). IsJoined x k m.links) same
                  (kept host k (
                    j.joins b k later g
                      (subst (λ (x : Host). (x.ident == k.ident) ≡ false) (sym same) d)))
            | inr below ↦ joins a b h k below f g d
          ]),
        ),
      )
