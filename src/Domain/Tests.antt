-- ===== src/Domain/Tests.antt =====
-- Witnesses and runs for core/domain.py.
use the_creation_os.Prelude.{◌≡◌, refl, ok, err, arith}
use the_creation_os.Domain.{
  conversation, mission, active, closed, drafted, planned, validated, authorized, distributed,
  executing, manifested, Actor, transition, invalid_state_transition,
}
use the_creation_os.Domain.Lifecycle.{
  Run, here, next, Visits, Advances, transition-mission_iff, has_been_through,
}

abbrev to_authorized : Run mission drafted authorized
unfolding transition
to_authorized = next (next (next here planned refl) validated refl) authorized refl

abbrev to_manifested : Run mission drafted manifested
unfolding transition
to_manifested = next (next (next to_authorized distributed refl) executing refl) manifested refl

abbrev someone : Actor
someone = record { id = "a"; role = "creator" }

no_way_back :
    transition conversation closed active
    ≡ err (invalid_state_transition conversation closed active)
unfolding transition
no_way_back = refl

transition-mission_iff_example :
    (transition mission executing manifested ≡ ok manifested → Advances executing manifested)
    × (Advances executing manifested → transition mission executing manifested ≡ ok manifested)
transition-mission_iff_example = transition-mission_iff executing manifested

has_been_through_example : Visits authorized to_manifested
has_been_through_example =
    has_been_through to_manifested authorized (λ e. cc) (omega arith) (omega arith)
