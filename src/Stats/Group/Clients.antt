-- ===== src/Stats/Group/Clients.antt =====
-- aggregate_stat: how it counts the clients of a server.
use pfstrase.Prelude.{
  ℕ, ◌+◌, String, Bool, true, false, ◌||◌, ◌≡◌, refl, sym, ap, ◌∙◌, Option, none, some, List, [],
  ◌∷◌, ◌==◌, eq_iff, arith, length, lookup, insert, Option-cases, Bool-cases, inl, inr, ◌>>=◌, pos,
}
use pfstrase.Json.{JsonC}
use pfstrase.Json.Objects.{object_get_ex-object_add}
use pfstrase.Stats.Group.{count_new, count_client, stats_of_type}

-- The number of entries of a table after a write to a key that it does not have.
length-insert :
    {V : Type 0} (k : String) (v : V) (l : List (String × V))
    → lookup k l ≡ none
    → length (insert k v l) ≡ 1 + length l
unfolding lookup insert
length-insert k v [] absent = omega arith
length-insert k v ((j, w) ∷ l) absent = elim (Bool-cases (j == k)) [
  | inl e ↦ let impossible = rw (e, lookup) at absent in cc
  | inr e ↦ let rest = length-insert k v l (rw (e, lookup) at absent) in rw e (omega (arith, rest))
]

abbrev pub total : List ℕ → ℕ
total [] = 0
total (n ∷ ns) = n + total ns

abbrev pub is_some {ℓ} : {A : Type ℓ} → Option A → Bool
is_some none = false
is_some (some a) = true

abbrev pub contains : String → List String → Bool
contains k [] = false
contains k (x ∷ xs) = x == k || contains k xs

module _ (J : JsonC) where
  open J use {
    Json, object_get_ex, object_add, new_object, entries, new_int64, new_string, get_string,
    to_json_string,
  }

  -- The stats of an entry, which show a number of clients and are otherwise what they were.
  pub record Shows (stats shown : Json) (n : ℕ) : Type 0 where
    pub clients : object_get_ex shown "nclients" ≡ some (new_int64 (pos n))
    pub others :
        (f : String) → ("nclients" == f) ≡ false → object_get_ex shown f ≡ object_get_ex stats f

  abbrev pub cons_stats : Option Json → List Json → List Json
  cons_stats none rest = rest
  cons_stats (some stats) rest = stats ∷ rest

  -- The stats of the entries of a type, in their order.
  abbrev pub typed_stats : String → List Json → List Json
  typed_stats stat_type [] = []
  typed_stats stat_type (e ∷ es) =
      cons_stats (stats_of_type J stat_type e) (typed_stats stat_type es)

  abbrev pub nid_of : Json → Option String
  nid_of entry = object_get_ex entry "client_nid" >>= λ nid. some (get_string nid)

  abbrev pub cons_nid : Option String → List String → List String
  cons_nid none nids = nids
  cons_nid (some nid) nids = nid ∷ nids

  abbrev pub cons_typed : Option Json → Option String → List String → List String
  cons_typed none nid nids = nids
  cons_typed (some stats) nid nids = cons_nid nid nids

  -- The node ids of the entries of a type that have one.
  abbrev pub client_nids : String → List Json → List String
  client_nids stat_type [] = []
  client_nids stat_type (e ∷ es) =
      cons_typed (stats_of_type J stat_type e) (nid_of e) (client_nids stat_type es)

  -- What one entry does to the clients, and what its stats then show.
  pub record Counts (clients stats clients' stats' : Json) (nid : Option String) (n : ℕ)
      : Type 0 where
    pub shows : Shows stats stats' n
    pub grows : length (entries clients') ≡ n + length (entries clients)
    pub keys :
        (k : String)
        → is_some (object_get_ex clients' k)
          ≡ (is_some (object_get_ex clients k) || contains k (cons_nid nid []))

  counted-Shows : (stats : Json) → Shows stats (object_add stats "nclients" (new_int64 (pos 0))) 0
  counted-Shows stats = record {
    clients = simp object_get_ex-object_add;
    others = λ f other. rw (object_get_ex-object_add, other) refl;
  }

  count_new-Counts :
      (clients stats : Json) (nid : String) (known : Option Json)
      → object_get_ex clients nid ≡ known
      → (n : ℕ) × Counts clients stats
          (count_new J clients (object_add stats "nclients" (new_int64 (pos 0))) nid known).0
          (count_new J clients (object_add stats "nclients" (new_int64 (pos 0))) nid known).1
          (some nid)
          n
  count_new-Counts clients stats nid (some tmp) there = (
    0,
    record {
      shows = counted-Shows stats;
      grows = omega arith;
      keys = λ k. elim (Bool-cases (nid == k)) [
        | inl e ↦
            let at_k : object_get_ex clients k ≡ some tmp =
              ap (object_get_ex clients) (sym ((eq_iff nid k).0 e)) ∙ there in
            rw at_k refl
        | inr e ↦ rw e (ground arith)
      ];
    },
  )
  count_new-Counts clients stats nid none absent = (
    1,
    record {
      shows = record {
        clients = simp object_get_ex-object_add;
        others = λ f other. simp (object_get_ex-object_add, other);
      };
      grows =
          ap length (J.entries-object_add clients nid (new_string ""))
          ∙ length-insert nid (new_string "") (entries clients)
              (sym (J.object_get_ex-entries clients nid) ∙ absent);
      keys = λ k. rw object_get_ex-object_add (elim (Bool-cases (nid == k)) [
        | inl e ↦ rw e (ground arith)
        | inr e ↦ rw e (ground arith)
      ]);
    },
  )

  pub count_client-Counts :
      (clients entry stats : Json)
      → (n : ℕ) × Counts clients stats
          (count_client J clients entry stats).0
          (count_client J clients entry stats).1
          (nid_of entry)
          n
  unfolding count_client
  count_client-Counts clients entry stats = elim (Option-cases (object_get_ex entry "client_nid")) [
    | inl e ↦
        rw (e, count_client)
          (0, record { shows = counted-Shows stats; grows = omega arith; keys = λ k. ground arith })
    | inr (nid, e) ↦ rw (e, count_client) (count_new-Counts clients stats (get_string nid) _ refl)
  ]
