-- ===== src/Adm/Mesh.antt =====
-- user/v9/drbdadm_postparse.c: the connections that a section connection-mesh stands for; and the
-- comparison of host names in user/v9/drbdadm_parser.c.
pub mod Joined
use drbd_utils.Prelude.{
  ℕ, Text, Bool, true, false, not, ◌&&◌, List, [], ◌∷◌, ◌++◌, Option, none, some, if◌then◌else◌,
  ◌==◌, Result, ok, ◌>>=◌,
}
use drbd_utils.Adm.Net.{eq_nocase}
use drbd_utils.Adm.Options.{DOption, FieldDef, expand_opts}

-- struct d_host_info; `ident` is its address.
pub record Host : Type 0 where
  pub ident : ℕ
  pub on_hosts : List Text
  pub proxy_compat_only : Bool

-- A connection with its path, which has two ends: their hosts and names, and the options.
pub record Link : Type 0 where
  pub first : Host
  pub second : Host
  pub first_name : Text
  pub second_name : Text
  pub net_options : List DOption

-- The connections of the resource, and config_valid.
pub record Mesh : Type 0 where
  pub links : List Link
  pub config_valid : Bool

-- The text before strchrnul(.., '.'), and whether it found a dot.
abbrev pub host_part : Text → Text
host_part [] = []
host_part (c ∷ name) = if c == 46 then [] else c ∷ host_part name

abbrev pub has_domain : Text → Bool
has_domain [] = false
has_domain (c ∷ name) = if c == 46 then true else has_domain name

unfoldable pub hostnames_equal : Text → Text → Bool
unfolding eq_nocase
hostnames_equal a b =
    if has_domain a && has_domain b then eq_nocase a b else eq_nocase (host_part a) (host_part b)

unfoldable pub hostname_in_list : Text → List Text → Bool
unfolding hostnames_equal
hostname_in_list name [] = false
hostname_in_list name (host ∷ rest) =
    if hostnames_equal host name then true else hostname_in_list name rest

unfoldable pub find_host_info_by_name : List Host → Text → Option Host
unfolding hostname_in_list
find_host_info_by_name [] name = none
find_host_info_by_name (host ∷ rest) name =
    if hostname_in_list name host.on_hosts then some host else find_host_info_by_name rest name

-- The host, and config_valid.
unfoldable pub find_host_info_or_invalid : List Host → Text → Bool → Option Host × Bool
unfolding find_host_info_by_name
find_host_info_or_invalid all_hosts name config_valid =
    let found = find_host_info_by_name all_hosts name in
    (found, elim found [ none ↦ false | some host ↦ config_valid && not host.proxy_compat_only ])

-- The name of STAILQ_FIRST(), of a list with a name
abbrev pub first_name_of : List Text → Text
first_name_of [] = []
first_name_of (name ∷ rest) = name

-- The table of options is show_net_options_ctx, and the options are those of the mesh.
module _ (fields : List FieldDef) (all_hosts : List Host) (net_options : List DOption) where
  -- The inner loop, and whether it came to its end.
  unfoldable pub join_rest : Host → List Text → Mesh → Result (Mesh × Bool)
  unfolding find_host_info_or_invalid expand_opts
  join_rest hi1 [] mesh = ok (mesh, true)
  join_rest hi1 (hname2 ∷ rest) mesh =
      let f = find_host_info_or_invalid all_hosts hname2 mesh.config_valid in
      elim f.0 [
        | none ↦ ok (record mesh { config_valid = f.1 }, false)
        | some hi2 ↦
            if hi1.ident == hi2.ident
            then join_rest hi1 rest (record mesh { config_valid = f.1 })
            else expand_opts fields false net_options [] f.1 >>= λ r.
                let link : Link = record {
                  first = hi1;
                  second = hi2;
                  first_name = first_name_of hi1.on_hosts;
                  second_name = first_name_of hi2.on_hosts;
                  net_options = r.0;
                } in
                join_rest hi1 rest
                  (record { links = mesh.links ++ (link ∷ []); config_valid = r.1 })
      ]

  unfoldable pub create_connections_from_mesh : List Text → Mesh → Result Mesh
  unfolding join_rest find_host_info_or_invalid
  create_connections_from_mesh [] mesh = ok mesh
  create_connections_from_mesh (hname1 ∷ rest) mesh =
      let f = find_host_info_or_invalid all_hosts hname1 mesh.config_valid in
      elim f.0 [
        | none ↦ ok (record mesh { config_valid = f.1 })
        | some hi1 ↦ join_rest hi1 rest (record mesh { config_valid = f.1 }) >>= λ r.
            let more = create_connections_from_mesh rest r.0 in if r.1 then more else ok r.0
      ]
