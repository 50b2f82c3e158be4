-- ===== src/Services/Opportunities/Competition.antt =====
-- backend/app/services/opportunity.py, `select_thesis` and `resolve_competition`.
use Prim.Native.Nat.{Ordering}
use Prim.Native.String.{compare}
use the_creation_os.Prelude.{
  ℕ, String, Bool, true, false, not, ◌&&◌, ◌||◌, Option, none, some, List, [], ◌∷◌, map, Result, ok,
  err, guard, ◌>>=◌, ◌>>◌, ltb, leb, if◌then◌else◌, ◌==◌, string_eq, nat_eq, contains, keep_if,
  Dict, lookup, insert,
}
use the_creation_os.Services.Opportunities.{
  proposed, selected, Thesis, executive, Lease, chosen, Opportunity, Market, MarketError, not_found,
  value_error, lease_conflict, thesis_by_id, is_active_executive, found_opportunity, thesis_of,
  lease_for, add_lease, expire_stale,
}

-- Of the Opportunity's theses, one is selected and the others are proposed.
abbrev pub choose : String → String → Thesis → Thesis
choose opportunity_id thesis_id t =
    if t.opportunity_id == opportunity_id
    then record t { status = if t.id == thesis_id then selected else proposed }
    else t

abbrev pub choose_in : String → String → Opportunity → Market → Market
choose_in opportunity_id thesis_id o m = record m {
  theses = map (λ t. choose opportunity_id thesis_id t) m.theses;
  opportunities = insert opportunity_id (record o { status = chosen }) m.opportunities;
}

unfoldable pub select_thesis : String → String → Market → Result MarketError (Thesis × Market)
select_thesis opportunity_id thesis_id m = do
  o ← found_opportunity (lookup opportunity_id m.opportunities)
  t ← thesis_of opportunity_id (thesis_by_id thesis_id m.theses)
  guard (contains t.universe_id m.universes) not_found
  ok (record t { status = selected }, choose_in opportunity_id thesis_id o m)

-- Scores by thesis, as a dict: `by_id[thesis_id]` of every key.
abbrev pub candidates : List Thesis → Dict String ℕ → Result MarketError (List (Thesis × ℕ))
candidates theses [] = ok []
candidates theses ((id, score) ∷ scores) = do
  rest ← candidates theses scores
  elim (thesis_by_id id theses) [ none ↦ err value_error | some t ↦ ok ((t, score) ∷ rest) ]

-- `(score, confidence, id)` of the first is below that of the second.
abbrev pub ranks_below : Thesis × ℕ → Thesis × ℕ → Bool
ranks_below (a, m) (b, n) =
    ltb m n
    || ((m == n)
        && (ltb a.confidence b.confidence
            || ((a.confidence == b.confidence)
                && elim (compare a.id b.id) [ Ordering.lt ↦ true | _ ↦ false ])))

abbrev pub best : Thesis × ℕ → List (Thesis × ℕ) → Thesis × ℕ
best top [] = top
best top (c ∷ cs) = best (if ranks_below top c then c else top) cs

abbrev pub winner_of : List (Thesis × ℕ) → Result MarketError Thesis
winner_of [] = err value_error
winner_of (c ∷ cs) = ok (best c cs).0

abbrev pub is_held_by : Thesis → Lease → Bool
is_held_by t l = (l.thesis_id == t.id) && (l.universe_id == t.universe_id)

-- The active leases that are not over, of which the last is kept, and any other's holder refuses.
abbrev pub keep_current : Bool → Bool → Lease → Option Lease → Result MarketError (Option Lease)
keep_current false held l rest = ok rest
keep_current true true l none = ok (some l)
keep_current true true l (some later) = ok (some later)
keep_current true false l rest = err lease_conflict

abbrev pub current_lease : ℕ → String → Thesis → List Lease → Result MarketError (Option Lease)
current_lease now opportunity_id winner [] = ok none
current_lease now opportunity_id winner (l ∷ ls) = do
  rest ← current_lease now opportunity_id winner ls
  keep_current (is_active_executive opportunity_id l && not (leb l.expires_at now))
      (is_held_by winner l) l rest

abbrev pub grant_lease :
    String → ℕ → Thesis → Option Lease → Market → Result MarketError ((Thesis × Lease) × Market)
grant_lease id expires_at winner none m =
    add_lease (lease_for id executive expires_at winner) m >>= λ written.
    ok ((record winner { status = selected }, written.0), written.1)
grant_lease id expires_at winner (some current) m =
    ok ((record winner { status = selected }, current), m)

unfoldable pub resolve_competition :
    ℕ
    → String
    → String
    → Dict String ℕ
    → ℕ
    → Market
    → Result MarketError ((Thesis × Lease) × Market)
resolve_competition now id opportunity_id scores expires_at m = do
  guard (ltb now expires_at) value_error
  o ← found_opportunity (lookup opportunity_id m.opportunities)
  let theses = keep_if (λ t. t.opportunity_id == opportunity_id) m.theses
  scored ← candidates theses scores
  winner ← winner_of scored
  current ← current_lease now opportunity_id winner m.leases
  grant_lease id expires_at winner current
      (choose_in opportunity_id winner.id o (expire_stale now opportunity_id m))
