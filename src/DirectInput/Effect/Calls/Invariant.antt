-- ===== src/DirectInput/Effect/Calls/Invariant.antt =====
-- A wrapper of src/wrapper_effect.cpp lives exactly as long as references to it are held.
use ffb_interceptor_visualiz.Common.{
  ℕ, suc, ◌+◌, ◌-◌, ◌%◌, ◌^◌, ◌≤◌, ◌<◌, ◌≡◌, refl, sym, ap, subst, ◌∙◌, Bool, true, false, ◌&&◌,
  if◌then◌else◌, pos, List, [], ◌∷◌, Option, none, some, ◌==◌, ==_iff, arith, All, length, ℤ,
  Bool-cases, inl, inr,
}
use ffb_interceptor_visualiz.Wire.Model.{Event}
use ffb_interceptor_visualiz.Common.{count}
use ffb_interceptor_visualiz.DirectInput.Effect.{
  WrapperEffect, Environment, Effects, at_address, new_wrapper, construct, add_ref, add_ref_at,
  release_effect, release_at, increment, decrement, first_match, find_and_add_ref, start_effect,
  stop_effect, download_effect, unload_effect, set_parameters, query_interface, e_pointer,
}
use ffb_interceptor_visualiz.DirectInput.Effect.Registry.{
  forwarded_query, count_of, count_at, reals, Apart, IsAlive, at_address-address, at_address_here,
  first_match-at_address, at_address-IsAlive, count_at-set_count, count_at-cons, count_at_absent,
  set_count-Apart, set_count-IsAlive, reals-set_count, unregister-Apart, unregister-IsAlive,
  reals-unregister, count_at-unregister,
}
use ffb_interceptor_visualiz.DirectInput.Effect.Calls.{
  Call, creates, adds_ref, queries, releases, finds, starts, stops, downloads, unloads, sets,
  on_object, World, start_world, credit, debit, credit_found, step, run, Allowed, Legal,
}

-- After at most `n` calls.
pub record IsSound (n : ℕ) (world : World) : Type 0 where
  pub apart : Apart world.effects.registry
  pub alive : All IsAlive world.effects.registry
  pub counted : (a : ℕ) → count_at a world.effects.registry ≡ world.held a
  pub bounded : (a : ℕ) → world.held a ≤ n
  pub balanced :
      (r : ℕ)
      → count r world.effects.released + count r (reals world.effects.registry)
        ≡ count r (reals world.created)

-- The references to an object that is registered.
module _ {n : ℕ} {world : World} (s : IsSound n world) (w : WrapperEffect)
    (e : at_address w.address world.effects.registry ≡ some w) where
  object_count : w.ref_count ≡ world.held w.address
  unfolding count_at
  object_count = sym (ap count_of e) ∙ s.counted w.address

  object-IsAlive : IsAlive w
  object-IsAlive = at_address-IsAlive w.address world.effects.registry w s.alive e

  gain-IsSound :
      n < 2 ^ 32 - 1
      → IsSound (suc n) (record world {
        effects = add_ref_at (some w) world.effects;
        held = credit w.address world.held;
      })
  unfolding add_ref_at increment
  gain-IsSound small =
      let bound = s.bounded w.address in
      let count = object_count in
      let up : (w.ref_count + 1) % 2 ^ 32 ≡ world.held w.address + 1 = omega arith in
      record {
        apart = set_count-Apart w.address _ world.effects.registry s.apart;
        alive = set_count-IsAlive w.address _ world.effects.registry (omega arith) s.alive;
        counted = λ b.
            let one = ==_iff w.address b in
            count_at-set_count w.address b _ world.effects.registry w e
            ∙ ground (arith, s.counted b, up, one, ap world.held);
        bounded = λ b. ground (arith, s.bounded b);
        balanced = λ r. rw (reals-set_count w.address _ world.effects.registry) (s.balanced r);
      }

  -- The last reference destroys the object, another one does not.
  lose-IsSound :
      (env : Environment) (now : ℕ)
      → n < 2 ^ 32 - 1
      → IsSound (suc n) (record world {
        effects = release_at env now (some w) world.effects;
        held = debit w.address world.held;
      })
  unfolding release_at decrement
  lose-IsSound env now small =
      let bound = s.bounded w.address in
      let count = object_count in
      let live = object-IsAlive in
      let down : (w.ref_count + (2 ^ 32 - 1)) % 2 ^ 32 ≡ w.ref_count - 1 = omega arith in
      elim (Bool-cases ((w.ref_count + (2 ^ 32 - 1)) % 2 ^ 32 == 0)) [
        | inl last ↦ rw last record {
          apart = unregister-Apart w.address world.effects.registry s.apart;
          alive = unregister-IsAlive w.address world.effects.registry s.alive;
          counted = λ b.
              let one = ==_iff w.address b in
              count_at-unregister w.address b world.effects.registry s.apart
              ∙ ground (arith, s.counted b, down, one, ap world.held, last);
          bounded = λ b. ground (arith, s.bounded b);
          balanced = λ r.
              let gone = reals-unregister r w.address world.effects.registry w e in
              let given : (w.real == 0) ≡ false = ground (arith, live.1) in
              rw given (omega (arith, s.balanced r, gone));
        }
        | inr more ↦ rw more record {
          apart = set_count-Apart w.address _ world.effects.registry s.apart;
          alive = set_count-IsAlive w.address _ world.effects.registry (ground arith) s.alive;
          counted = λ b.
              let one = ==_iff w.address b in
              count_at-set_count w.address b _ world.effects.registry w e
              ∙ ground (arith, s.counted b, down, one, ap world.held);
          bounded = λ b. ground (arith, s.bounded b);
          balanced = λ r. rw (reals-set_count w.address _ world.effects.registry) (s.balanced r);
        }
      ]

-- A new object.
create-IsSound :
    (n : ℕ) (world : World) (address real : ℕ) (found : Bool) (identity device_id effect_id : ℕ)
    (guid : List ℕ)
    → IsSound n world
    → at_address address world.effects.registry ≡ none
    → 0 < real
    → IsSound (suc n) (record {
      effects = construct address real found identity device_id effect_id guid world.effects;
      held = credit address world.held;
      created = new_wrapper address real found identity device_id effect_id guid ∷ world.created;
    })
unfolding construct new_wrapper
create-IsSound n world address real found identity device_id effect_id guid s fresh real_given =
    let none_held = count_at_absent address world.effects.registry fresh in
    record {
      apart = (fresh, s.apart);
      alive = ((omega arith, real_given), s.alive);
      counted = λ b.
          count_at-cons b _ world.effects.registry
          ∙ ground
              (arith, s.counted b, s.counted address, none_held, ==_iff address b, ap world.held);
      bounded = λ b. ground (arith, s.bounded b);
      balanced = λ r. omega (arith, s.balanced r);
    }

-- A method that leaves the registry alone.
emit-IsSound :
    (n : ℕ) (world : World) (events : List Event)
    → IsSound n world
    → IsSound (suc n) (record world { effects = record world.effects { emitted = events } })
emit-IsSound n world events s = record {
  apart = s.apart;
  alive = s.alive;
  counted = s.counted;
  bounded = λ a. omega (arith, s.bounded a);
  balanced = s.balanced;
}

wait-IsSound : (n : ℕ) (world : World) → IsSound n world → IsSound (suc n) world
wait-IsSound n world s = emit-IsSound n world world.effects.emitted s

on_object-IsSound :
    (n : ℕ) (world : World) (o : Option WrapperEffect)
    (method : WrapperEffect → Effects → ℤ × Effects)
    → ((w : WrapperEffect)
        → (method w world.effects).1
          ≡ record world.effects { emitted = (method w world.effects).1.emitted })
    → IsSound n world
    → IsSound (suc n) (record world { effects = on_object o method world.effects })
on_object-IsSound n world none method h s = wait-IsSound n world s
on_object-IsSound n world (some w) method h s =
    subst (λ (t : Effects). IsSound (suc n) (record world { effects = t })) (sym (h w))
      (emit-IsSound n world (method w world.effects).1.emitted s)

find-IsSound :
    (n : ℕ) (world : World) (found : Option WrapperEffect)
    → n < 2 ^ 32 - 1
    → ((w : WrapperEffect) → found ≡ some w → at_address w.address world.effects.registry ≡ some w)
    → IsSound n world
    → IsSound (suc n) (record world {
      effects = add_ref_at found world.effects;
      held = credit_found found world.held;
    })
unfolding add_ref_at
find-IsSound n world none small h s = wait-IsSound n world s
find-IsSound n world (some w) small h s = unfold add_ref_at in gain-IsSound s w (h w refl) small

-- A call on the object at an address to which a reference is held.
on_held-IsSound :
    (n : ℕ) (world : World) (s : IsSound n world) (a : ℕ) (o : Option WrapperEffect)
    (change : Option WrapperEffect → Effects) (book : ℕ → ℕ → ℕ)
    → at_address a world.effects.registry ≡ o
    → 0 < world.held a
    → ((w : WrapperEffect)
        → at_address w.address world.effects.registry ≡ some w
        → IsSound (suc n) (record world { effects = change (some w); held = book w.address }))
    → IsSound (suc n) (record world { effects = change o; held = book a })
unfolding count_at
on_held-IsSound n world s a none change book e held h =
    absurd (omega (arith, s.counted a, ap count_of e))
on_held-IsSound n world s a (some w) change book e held h =
    subst (λ (b : ℕ). IsSound (suc n) (record world { effects = change (some w); held = book b }))
      (at_address-address a world.effects.registry w e)
      (h w (at_address_here a world.effects.registry w e))

-- QueryInterface: a reference to the wrapper itself, or what leaves the wrappers alone.
query-IsSound :
    (n : ℕ) (world : World) (a : ℕ) (out_given known : Bool) (forwarded : ℤ × ℕ)
    → n < 2 ^ 32 - 1
    → 0 < world.held a
    → IsSound n world
    → IsSound (suc n) (record world {
      effects =
          on_object
            (at_address a world.effects.registry)
            (λ w s.
              let (answer, after) = query_interface w out_given known forwarded s in
              (answer.0, after))
            world.effects;
      held = if out_given && known then credit a world.held else world.held;
    })
unfolding query_interface add_ref
query-IsSound n world a true true forwarded small h s =
    on_held-IsSound n world s a _
      (λ o.
        on_object o (λ w t. (pos 0, add_ref_at (at_address w.address t.registry) t)) world.effects)
      (λ b. credit b world.held) refl h (λ w e. rw e (gain-IsSound s w e small))
query-IsSound n world a true false forwarded small h s =
    on_object-IsSound n world (at_address a world.effects.registry) _
      (λ w.
        let same = forwarded_query w forwarded world.effects in
        same ∙ ap (λ (t : Effects). record world.effects { emitted = t.emitted }) (sym same))
      s
query-IsSound n world a false known forwarded small h s =
    on_object-IsSound n world (at_address a world.effects.registry) (λ w t. (e_pointer, t))
      (λ w. refl) s

step-IsSound :
    (env : Environment) (call : Call) (n : ℕ) (world : World)
    → n < 2 ^ 32 - 1
    → Allowed env call world
    → IsSound n world
    → IsSound (suc n) (step env call world)
unfolding step add_ref release_effect find_and_add_ref start_effect stop_effect download_effect
    unload_effect set_parameters
step-IsSound env (creates address real found identity device_id effect_id guid) n world small h s =
    create-IsSound n world address real found identity device_id effect_id guid s h.0 h.1
step-IsSound env (adds_ref a) n world small h s =
    on_held-IsSound n world s a _ (λ o. add_ref_at o world.effects) (λ b. credit b world.held) refl
      h (λ w e. gain-IsSound s w e small)
step-IsSound env (queries a out_given known forwarded) n world small h s =
    query-IsSound n world a out_given known forwarded small h s
step-IsSound env (releases a now) n world small h s =
    on_held-IsSound n world s a _ (λ o. release_at env now o world.effects)
      (λ b. debit b world.held) refl h.0 (λ w e. lose-IsSound s w e env now small)
step-IsSound env (finds real identity) n world small h s = elim (Bool-cases (real == 0)) [
  | inl z ↦ rw z (wait-IsSound n world s)
  | inr z ↦ rw z (
      find-IsSound n world (first_match real identity world.effects.registry) small
        (λ w. first_match-at_address real identity world.effects.registry w s.apart) s)
]
step-IsSound env (starts a hr iterations flags) n world small h s =
    on_object-IsSound n world (at_address a world.effects.registry)
      (λ w. start_effect env w hr iterations flags) (λ w. refl) s
step-IsSound env (stops a hr) n world small h s =
    on_object-IsSound n world (at_address a world.effects.registry) (λ w. stop_effect env w hr)
      (λ w. refl) s
step-IsSound env (downloads a hr) n world small h s =
    on_object-IsSound n world (at_address a world.effects.registry) (λ w. download_effect env w hr)
      (λ w. refl) s
step-IsSound env (unloads a hr) n world small h s =
    on_object-IsSound n world (at_address a world.effects.registry) (λ w. unload_effect env w hr)
      (λ w. refl) s
step-IsSound env (sets a hr parameters flags) n world small h s =
    on_object-IsSound n world (at_address a world.effects.registry)
      (λ w. set_parameters env w hr parameters flags) (λ w. refl) s

run-IsSound :
    (env : Environment) (calls : List Call) (n : ℕ) (world : World)
    → n + length calls < 2 ^ 32
    → Legal env calls world
    → IsSound n world
    → IsSound (n + length calls) (run env calls world)
unfolding run
run-IsSound env [] n world small legal s =
    let e : n ≡ n + 0 = omega arith in subst (λ (k : ℕ). IsSound k world) e s
run-IsSound env (call ∷ calls) n world small legal s =
    let e : suc n + length calls ≡ n + suc (length calls) = omega arith in
    subst (λ (k : ℕ). IsSound k (run env calls (step env call world))) e
      (run-IsSound env calls (suc n) (step env call world) (omega arith) legal.1
        (step-IsSound env call n world (omega arith) legal.0 s))

start_world-IsSound : IsSound 0 start_world
unfolding count_at at_address
start_world-IsSound = ground arith

-- Over any legal calls, fewer than 2 ^ 32: an object stands in the registry exactly while
-- references to it are held, with their number as its reference count, and at one address only;
-- and each real effect has been released as often as objects have been created for it that are
-- gone.
pub run_counts :
    (env : Environment) (calls : List Call)
    → length calls < 2 ^ 32
    → Legal env calls start_world
    → let world = run env calls start_world in
      ((a : ℕ) → count_at a world.effects.registry ≡ world.held a)
      × Apart world.effects.registry
      × All IsAlive world.effects.registry
      × ((r : ℕ)
          → count r world.effects.released + count r (reals world.effects.registry)
            ≡ count r (reals world.created))
run_counts env calls small legal =
    let sound = run-IsSound env calls 0 start_world (omega arith) legal start_world-IsSound in
    (sound.counted, sound.apart, sound.alive, sound.balanced)
