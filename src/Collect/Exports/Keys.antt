-- ===== src/Collect/Exports/Keys.antt =====
-- Every entry that collect_exports reports has what the server's calc_rates needs of it.
use Prim.Native.String.{◌++◌ as append}
use pfstrase.Prelude.{
  String, ◌≡◌, refl, false, Option, none, some, List, [], ◌∷◌, ◌++◌, All, Bool-cases, inl, inr,
  snprintf_joined, ◌>>=◌, ◌⊎◌, ◌≢◌, ℤ, ◌==◌,
}
use pfstrase.Json.{JsonC}
use pfstrase.Json.Objects.{object_get_ex-object_add}
use pfstrase.Stats.Rates.{rate_key}
use pfstrase.Stats.Rates.Matches.{counters}
use pfstrase.Collect.{Dirent, Machine, is_listed, joined_path, add_entry}
use pfstrase.Collect.Units.{UnitsFit, collect_stats-some}
use pfstrase.Collect.Exports.{
  collect_nid, collect_nids, collect_target_exports, collect_targets, collect_typedir, export_tags,
  collect_exportdir, DeviceClass, mds, oss, osc, exports_of, collect_exports,
}

abbrev pub type_of : DeviceClass → String
type_of mds = "mds"
type_of oss = "oss"
type_of osc = ""

module _ (J : JsonC) (env : Machine) where
  open J use {Json, new_object, object_add, object_get_ex, new_string, items, array_add, entries}

  -- An entry with counters under a key that names a target and a client.
  pub record IsExport (type : String) (entry : Json) : Type 0 where
    pub target : String
    pub nid : String
    pub stats : Json
    pub keyed : counters J entry ≡ some (snprintf_joined 256 nid target type, stats)
    pub filled : (entries stats ≡ []) → ⊥

  abbrev pub AllExports : String → Json → Type 0
  AllExports type jarray = All (IsExport type) (items jarray)

  All-snoc :
      (type : String) (l : List Json) (x : Json)
      → All (IsExport type) l
      → IsExport type x
      → All (IsExport type) (l ++ x ∷ [])
  All-snoc type [] x h hx = (hx, tt)
  All-snoc type (y ∷ l) x h hx = (h.0, All-snoc type l x h.1 hx)

  List-cases :
      (l : List (String × Json))
      → (l ≡ []) ⊎ ((e : String × Json) × (rest : List (String × Json)) × (l ≡ e ∷ rest))
  List-cases [] = inl refl
  List-cases (e ∷ rest) = inr (e, rest, refl)

  -- A step of the collection returns, and keeps what holds of the entries.
  abbrev Keeps : String → Json → Option Json → Type 0
  Keeps type jarray o =
      (next : Json) × (o ≡ some next) × (AllExports type jarray → AllExports type next)

  then-Keeps :
      (type : String) (jarray : Json) (first : Option Json) (rest : Json → Option Json)
      → Keeps type jarray first
      → ((next : Json) → Keeps type next (rest next))
      → Keeps type jarray (first >>= rest)
  then-Keeps type jarray first rest (next, read, keeps) more =
      let (last, read', keeps') = more next in (last, rw (read, read') refl, λ h. keeps' (keeps h))

  module _ (type : String) (other : (type == "cpu") ≡ false) where
    counters-export :
        (target nid : String) (stats : Json)
        → counters J (object_add (export_tags J env type target nid) "stats" stats)
          ≡ some (snprintf_joined 256 nid target type, stats)
    unfolding rate_key
    counters-export target nid stats =
        simp (object_get_ex-object_add, J.get_string-new_string, other)

    add_entry-AllExports :
        (jarray : Json) (target nid : String) (stats : Json)
        → AllExports type jarray
        → AllExports type (add_entry J env jarray (export_tags J env type target nid) stats)
    unfolding add_entry
    add_entry-AllExports jarray target nid stats h = elim (List-cases (entries stats)) [
      | inl none_there ↦ rw (none_there, add_entry) h
      | inr (e, rest, there) ↦
          rw (there, add_entry, J.items-array_add)
            (All-snoc type (items jarray) _ h (record {
              target = target;
              nid = nid;
              stats = stats;
              keyed = counters-export target nid stats;
              filled = λ gone. let impossible = rw there at gone in cc;
            }))
    ]

    module _ (fits : UnitsFit env) where
      collect_nid-Keeps :
          (target exportpath : String) (jarray : Json) (nidde : Dirent)
          → Keeps type jarray (collect_nid J env type target exportpath jarray nidde)
      unfolding collect_nid
      collect_nid-Keeps target exportpath jarray nidde = elim (Bool-cases (is_listed nidde)) [
        | inl listed ↦
            let path = joined_path exportpath (append nidde.d_name "/stats") in
            let (stats, read) = collect_stats-some J env fits path J.new_object in
            rw (listed, collect_nid, read)
              (_, refl, add_entry-AllExports jarray target nidde.d_name stats.0)
        | inr hidden ↦ rw (hidden, collect_nid) (jarray, refl, λ h. h)
      ]

      collect_nids-Keeps :
          (target exportpath : String) (jarray : Json) (nids : List Dirent)
          → Keeps type jarray (collect_nids J env type target exportpath jarray nids)
      unfolding collect_nids
      collect_nids-Keeps target exportpath jarray [] = (jarray, refl, λ h. h)
      collect_nids-Keeps target exportpath jarray (nidde ∷ rest) =
          then-Keeps type jarray (collect_nid J env type target exportpath jarray nidde)
            (λ next. collect_nids J env type target exportpath next rest)
            (collect_nid-Keeps target exportpath jarray nidde)
            (λ next. collect_nids-Keeps target exportpath next rest)

      collect_exportdir-Keeps :
          (target exportpath : String) (jarray : Json) (nids : Option (List Dirent))
          → Keeps type jarray (collect_exportdir J env type target exportpath jarray nids)
      collect_exportdir-Keeps target exportpath jarray none = (jarray, refl, λ h. h)
      collect_exportdir-Keeps target exportpath jarray (some nids) =
          collect_nids-Keeps target exportpath jarray nids

      target-Keeps :
          (typepath : String) (jarray : Json) (typede : Dirent)
          → Keeps type jarray (collect_target_exports J env type typepath jarray typede)
      unfolding collect_target_exports
      target-Keeps typepath jarray typede = elim (Bool-cases (is_listed typede)) [
        | inl listed ↦
            rw (listed, collect_target_exports) (collect_exportdir-Keeps typede.d_name _ jarray _)
        | inr hidden ↦ rw (hidden, collect_target_exports) (jarray, refl, λ h. h)
      ]

      targets-Keeps :
          (typepath : String) (jarray : Json) (targets : List Dirent)
          → Keeps type jarray (collect_targets J env type typepath jarray targets)
      unfolding collect_targets
      targets-Keeps typepath jarray [] = (jarray, refl, λ h. h)
      targets-Keeps typepath jarray (typede ∷ rest) =
          then-Keeps type jarray (collect_target_exports J env type typepath jarray typede)
            (λ next. collect_targets J env type typepath next rest)
            (target-Keeps typepath jarray typede) (λ next. targets-Keeps typepath next rest)

      typedir-Keeps :
          (typepath : String) (jarray : Json) (targets : Option (List Dirent))
          → (rc : Json × ℤ) × (collect_typedir J env type typepath jarray targets ≡ some rc)
            × (AllExports type jarray → AllExports type rc.0)
      typedir-Keeps typepath jarray none = (_, refl, λ h. h)
      typedir-Keeps typepath jarray (some targets) =
          let (next, read, keeps) = targets-Keeps typepath jarray targets in
          rw read (_, refl, keeps)

  none_yet : (type : String) → AllExports type J.new_array
  none_yet type = rw J.items-new_array tt

  pub collect_exports-Keeps :
      (class : DeviceClass) (jarray : Json)
      → UnitsFit env
      → class ≢ osc
      → (rc : Json × ℤ) × (collect_exports J env class jarray ≡ some rc)
        × (AllExports (type_of class) jarray → AllExports (type_of class) rc.0)
  unfolding collect_exports exports_of
  collect_exports-Keeps mds jarray fits server =
      typedir-Keeps "mds" refl fits "/proc/fs/lustre/mdt" jarray _
  collect_exports-Keeps oss jarray fits server =
      typedir-Keeps "oss" refl fits "/proc/fs/lustre/obdfilter" jarray _
  collect_exports-Keeps osc jarray fits server = absurd (server refl)

  -- Where the units in the files are words of at most 15 bytes, a server's exports are read,
  -- whatever the files hold else, and every entry that it reports, starting with none, has counters,
  -- which are not empty, under the key of a client, a target and the server's type.
  pub collect_exports-AllExports :
      (class : DeviceClass)
      → UnitsFit env
      → class ≢ osc
      → (rc : Json × ℤ) × (collect_exports J env class J.new_array ≡ some rc)
        × AllExports (type_of class) rc.0
  collect_exports-AllExports class fits server =
      let (rc, read, keeps) = collect_exports-Keeps class J.new_array fits server in
      (rc, read, keeps (none_yet (type_of class)))
