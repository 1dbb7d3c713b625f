-- ===== src/Mongo/Match/Lookup.antt =====
-- What a query holds of a key.
use freego.Prelude.{
  Text, text_eq, text_eq_refl, eq_of_text_eq, Go, panic, ok, ◌>>=◌, ◌≡◌, refl, ap, ◌∙◌, sym, Bool,
  true, false, Option, none, some, if◌then◌else◌,
}
use mathlib.Core.Path.{subst}
use mathlib.Core.Bool.{false≢true}
use freego.Sqlc.Value.{Conditions, no_condition, condition}
use freego.Mongo.Match.{
  Query, nil_query, bson_m, build_mongo_match, Test, Entries, no_entry, entry, put_test, Tested,
  put_tested, tested, match_entries,
}

-- The test of a key in a query.
abbrev pub lookup : Text → Entries → Option Test
lookup k no_entry = none
lookup k (entry j t q) = if text_eq j k then some t else lookup k q

-- The test of the last condition on this key, or else d.
abbrev pub later : Text → Tested → Option Test → Option Test
later k none d = d
later k (some (j, t)) d = if text_eq j k then some t else d

unfoldable pub last_test : Text → Option Test → Conditions → Go (Option Test)
last_test k d no_condition = ok d
last_test k d (condition c cs) = tested c >>= λ t. last_test k (later k t d) cs

same_key :
    (b : Bool) (t u : Test) (o : Option Test)
    → (if b then some t else o) ≡ (if b then some t else if b then some u else o)
same_key true t u o = refl
same_key false t u o = refl

other_key :
    (i j : Bool) (t u : Test) (o : Option Test)
    → (i ≡ true → j ≡ true → ⊥)
    → (if i then some u else if j then some t else o)
      ≡ (if j then some t else if i then some u else o)
other_key true true t u o h = absurd (h refl refl)
other_key true false t u o h = refl
other_key false j t u o h = refl

-- Two keys that are equal to a third one are equal.
transitive : (i j k : Text) → text_eq i j ≡ false → text_eq i k ≡ true → text_eq j k ≡ true → ⊥
transitive i j k n a b =
    let e : i ≡ j = eq_of_text_eq i k a ∙ sym (eq_of_text_eq j k b) in
    false≢true (sym n ∙ ap (λ x. text_eq x j) e ∙ text_eq_refl j)

put_case :
    (k i j : Text) (t u : Test) (q r : Entries) (b : Bool)
    → text_eq i j ≡ b
    → lookup k r ≡ (if text_eq j k then some t else lookup k q)
    → lookup k (if b then entry i t q else entry i u r)
      ≡ (if text_eq j k then some t else if text_eq i k then some u else lookup k q)
put_case k i j t u q r true e h =
    let same = eq_of_text_eq i j e in
    subst
      (λ x.
        (if text_eq i k then some t else lookup k q)
        ≡ (if text_eq x k then some t else if text_eq i k then some u else lookup k q))
      same (same_key (text_eq i k) t u (lookup k q))
put_case k i j t u q r false e h =
    ap (λ o. if text_eq i k then some u else o) h
    ∙ other_key (text_eq i k) (text_eq j k) t u (lookup k q) (transitive i j k e)

pub lookup-put_test :
    (k j : Text) (t : Test) (q : Entries)
    → lookup k (put_test j t q) ≡ (if text_eq j k then some t else lookup k q)
unfolding put_test
lookup-put_test k j t no_entry = refl
lookup-put_test k j t (entry i u q) =
    put_case k i j t u q (put_test j t q) (text_eq i j) refl (lookup-put_test k j t q)

lookup-put_tested :
    (k : Text) (t : Tested) (q : Entries) → lookup k (put_tested t q) ≡ later k t (lookup k q)
unfolding put_tested
lookup-put_tested k none q = refl
lookup-put_tested k (some (j, t)) q = lookup-put_test k j t q

abbrev pub over {ℓ κ} : {A : Type ℓ} {B : Type κ} → (A → B) → Go A → Go B
over f panic = panic
over f (ok a) = ok (f a)

next_case :
    (k : Text) (g : Go Tested) (q : Entries) (f : Tested → Go Entries)
    (l : Tested → Go (Option Test))
    → ((t : Tested) → over (lookup k) (f t) ≡ l t)
    → over (lookup k) (g >>= f) ≡ (g >>= l)
next_case k panic q f l h = refl
next_case k (ok t) q f l h = h t

-- In the query of a list of conditions each key has the test of the last condition on it, whatever
-- the earlier ones on this key ask; the loop panics exactly if the reading of the tests does.
pub lookup-match_entries :
    (k : Text) (q : Entries) (cs : Conditions)
    → over (lookup k) (match_entries q cs) ≡ last_test k (lookup k q) cs
unfolding match_entries last_test
lookup-match_entries k q no_condition = refl
lookup-match_entries k q (condition c cs) =
    next_case k (tested c) q (λ t. match_entries (put_tested t q) cs)
      (λ t. last_test k (later k t (lookup k q)) cs)
      (λ t.
        lookup-match_entries k (put_tested t q) cs
        ∙ ap (λ d. last_test k d cs) (lookup-put_tested k t q))

abbrev pub entries_of : Query → Entries
entries_of nil_query = no_entry
entries_of (bson_m q) = q

-- In the query of a builder each key has the test of the last condition on it, whatever the earlier
-- ones on this key ask; buildMongoMatch panics exactly if the reading of a condition does.
pub lookup-build_mongo_match :
    (k : Text) (cs : Conditions)
    → over (λ q. lookup k (entries_of q)) (build_mongo_match cs) ≡ last_test k none cs
unfolding build_mongo_match
lookup-build_mongo_match k no_condition = unfold last_test in refl
lookup-build_mongo_match k (condition c cs) =
    through (match_entries no_entry (condition c cs))
    ∙ lookup-match_entries k no_entry (condition c cs)
  where
    through :
        (g : Go Entries)
        → over (λ q. lookup k (entries_of q)) (g >>= λ q. ok (bson_m q)) ≡ over (lookup k) g
    through panic = refl
    through (ok q) = refl
