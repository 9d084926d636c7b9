-- ===== src/Stats/Group/Published.antt =====
-- The groups of one server: whose rates they sum up.
use pfstrase.Prelude.{
  ℕ, String, Bool, true, false, ◌≡◌, sym, ap, ◌∙◌, some, List, [], ◌>>=◌, >>=-eq-some, some_inj,
  if◌then◌else◌,
}
use pfstrase.Json.{JsonC}
use pfstrase.Json.Objects.{object_get_ex-object_add}
use pfstrase.Stats.Totals.Sums.{add_all}
use pfstrase.Stats.Group.{
  is_class, aggregate_entries, aggregate_stat, aggregate_class, add_loads, host_maps, host_tag_map,
}
use pfstrase.Stats.Group.Clients.{typed_stats}
use pfstrase.Stats.Group.Counted.{Shown, aggregate_entries-clients}

module _ (J : JsonC) where
  open J use {Json, object_get_ex, object_add, new_object, entries, items}

  -- What the rates of a class add to the groups: those of the entries of that type, in their
  -- order, with a number of clients each, and nothing for a server of another class.
  pub record Added (is_of : Bool) (class : String) (rates tag_map tag_map' : Json) : Type 0 where
    pub added : List (String × Json)
    pub ns : List ℕ
    pub shown : Shown J (if is_of then typed_stats J class (items rates) else []) added ns
    pub summed : tag_map' ≡ add_all J tag_map added

  aggregate_class-Added :
      (is_of : Bool) (entry tag_tuple rates tag_map tag_map' : Json) (class : String)
      → object_get_ex entry "rates" ≡ some rates
      → aggregate_class J is_of entry tag_tuple class tag_map ≡ some tag_map'
      → Added is_of class rates tag_map tag_map'
  unfolding aggregate_stat add_all
  aggregate_class-Added false entry tag_tuple rates tag_map tag_map' class there done = record {
    added = [];
    ns = [];
    shown = tt;
    summed = sym (some_inj done);
  }
  aggregate_class-Added true entry tag_tuple rates tag_map tag_map' class there done =
      let ((clients, groups), ran, same) =
        >>=-eq-some {B = Json}
          (aggregate_entries J tag_tuple class (new_object, tag_map) (items rates)) (λ s. some s.1)
          (rw (there, aggregate_stat) at done) in
      let (added, ns, shown, summed, _, _) =
        aggregate_entries-clients J tag_tuple tag_map class (items rates) clients groups ran in
      record { added = added; ns = ns; shown = shown; summed = sym (some_inj same) ∙ summed }

  -- The groups that a server's rates are summed into: those of a metadata server's exports, and then
  -- those of an object server's; the loads of the kernel and the time are put in behind them.
  pub record Summed (entry rates ntime groups : Json) : Type 0 where
    pub mds : Bool
    pub oss : Bool
    pub is_mds : is_class J entry "mds" ≡ some mds
    pub is_oss : is_class J entry "oss" ≡ some oss
    pub with_mds : Json
    pub with_oss : Json
    pub cpu_map : Json
    pub metadata : Added mds "mds" rates new_object with_mds
    pub objects : Added oss "oss" rates with_mds with_oss
    pub whole : groups ≡ object_add (add_loads J with_oss (entries cpu_map)) "time" ntime

  pub host_tag_map-Summed :
      (tag_tuple entry rates ntime groups : Json)
      → object_get_ex entry "rates" ≡ some rates
      → host_tag_map J tag_tuple entry ntime ≡ some groups
      → Summed entry rates ntime groups
  unfolding host_tag_map host_maps
  host_tag_map-Summed tag_tuple entry rates ntime groups there done =
      let (maps, ran, last) =
        >>=-eq-some (host_maps J tag_tuple entry)
          (λ (m : Json × Json). some (object_add (add_loads J m.0 (entries m.1)) "time" ntime))
          done in
      let (mds, is_mds, more) =
        >>=-eq-some {B = Json × Json} (is_class J entry "mds")
          (λ mds. aggregate_class J mds entry tag_tuple "mds" new_object >>= λ with_mds.
            is_class J entry "oss" >>= λ oss.
            aggregate_class J oss entry tag_tuple "oss" with_mds >>= λ with_oss.
            aggregate_stat J entry tag_tuple "cpu" new_object >>= λ cpu_map.
            some (with_oss, cpu_map))
          ran in
      let (with_mds, ran_mds, more') =
        >>=-eq-some {B = Json × Json} (aggregate_class J mds entry tag_tuple "mds" new_object)
          (λ with_mds. is_class J entry "oss" >>= λ oss.
            aggregate_class J oss entry tag_tuple "oss" with_mds >>= λ with_oss.
            aggregate_stat J entry tag_tuple "cpu" new_object >>= λ cpu_map.
            some (with_oss, cpu_map))
          more in
      let (oss, is_oss, rest) =
        >>=-eq-some {B = Json × Json} (is_class J entry "oss")
          (λ oss. aggregate_class J oss entry tag_tuple "oss" with_mds >>= λ with_oss.
            aggregate_stat J entry tag_tuple "cpu" new_object >>= λ cpu_map.
            some (with_oss, cpu_map))
          more' in
      let (with_oss, ran_oss, rest') =
        >>=-eq-some {B = Json × Json} (aggregate_class J oss entry tag_tuple "oss" with_mds)
          (λ with_oss. aggregate_stat J entry tag_tuple "cpu" new_object >>= λ cpu_map.
            some (with_oss, cpu_map))
          rest in
      let (cpu_map, ran_cpu, both) =
        >>=-eq-some {B = Json × Json} (aggregate_stat J entry tag_tuple "cpu" new_object)
          (λ cpu_map. some (with_oss, cpu_map)) rest' in
      record {
        mds = mds;
        oss = oss;
        is_mds = is_mds;
        is_oss = is_oss;
        with_mds = with_mds;
        with_oss = with_oss;
        cpu_map = cpu_map;
        metadata =
            aggregate_class-Added mds entry tag_tuple rates new_object with_mds "mds" there ran_mds;
        objects =
            aggregate_class-Added oss entry tag_tuple rates with_mds with_oss "oss" there ran_oss;
        whole =
            sym (some_inj last)
            ∙ ap (λ (m : Json × Json). object_add (add_loads J m.0 (entries m.1)) "time" ntime)
                (sym (some_inj both));
      }

  pub time-Summed :
      (entry rates ntime groups : Json)
      → Summed entry rates ntime groups
      → object_get_ex groups "time" ≡ some ntime
  time-Summed entry rates ntime groups s = rw s.whole (simp object_get_ex-object_add)
