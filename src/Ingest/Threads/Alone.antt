-- ===== src/Ingest/Threads/Alone.antt =====
-- Handle of internal/ingest/service.go access by access, with nothing in between, is Handle.
use device_handler.Prelude.{ℕ, zero, suc, ◌-◌, ◌≤◌, ◌≡◌, arith, ap, subst, refl, sym, ◌∙◌, ok}
use device_handler.Text.{Unicode}
use device_handler.Device.{Request}
use device_handler.Device.Registry.{Registry}
use device_handler.Publish.{PublishConfig}
use device_handler.Ingest.State.{Remote, Service}
use device_handler.Ingest.Lookup.{
  search_cache, or_fallback, fetch_updated, fetch_full, refresh_full, refresh_and_lookup_device,
  resolve_device,
}
use device_handler.Ingest.Channels.{create_channel}
use device_handler.Ingest.Handle.{identify, deliver, handle}
use device_handler.Ingest.Threads.Budget.{budget, left, left-step, IsFinished, left-IsFinished}
use device_handler.Ingest.Threads.Rest.{Answers, located, searched, full, rest_at, rest}
use device_handler.Ingest.Threads.Rest.Cases.{
  rest-after_registry, rest-after_search, rest-after_updated, rest-after_all, rest-after_create,
  rest-after_store,
}
use device_handler.Ingest.Threads.{
  Pc, arrived, unsupported, unparsed, looking_up, missed, refreshing, fetching_updated,
  storing_updated, looking_up_updated, falling_back_updated, fetching_all, storing_all,
  looking_up_all, falling_back_all, absent, creating, not_created, counting_channel,
  storing_channel, stamping, enqueueing, counting, finished, step,
}

module _ ⦃u : Unicode⦄ {W E X : Type 0} (remote : Remote W X) (registry : Registry E)
    (cfg : PublishConfig) where
  -- The accesses of one request, with nothing in between.
  unfoldable pub steps : ℕ → Request → Pc E X → Service W → Pc E X × Service W
  unfolding step
  steps zero req pc s = (pc, s)
  steps (suc n) req pc s = let (pc', s') = step remote registry cfg req pc s in steps n req pc' s'

  -- One access takes nothing from what is left to do, and adds nothing to it.
  rest-step :
      (req : Request) (pc : Pc E X) (s : Service W)
      → rest_at remote registry cfg req (step remote registry cfg req pc s)
        ≡ rest remote registry cfg req pc s
  unfolding step rest
  rest-step req arrived s = rest-after_registry remote registry cfg req _ s refl
  rest-step req unsupported s = refl
  rest-step req (unparsed e) s = refl
  rest-step req (looking_up parsed) s =
      unfold identify in
      rest-after_search remote registry cfg req parsed (missed parsed)
        (λ o.
          located remote registry cfg parsed
            (resolve_device remote req.manufacturer req.model parsed.serial o s))
        _ s refl (λ r. unfold resolve_device in refl)
  rest-step req (missed parsed) s = unfold resolve_device in refl
  rest-step req (refreshing parsed) s =
      unfold refresh_and_lookup_device in unfold fetch_updated in refl
  rest-step req (fetching_updated since parsed) s =
      rest-after_updated remote registry cfg req parsed _ s
  rest-step req (storing_updated rs parsed) s = refl
  rest-step req (looking_up_updated parsed) s =
      unfold search_cache in
      rest-after_search remote registry cfg req parsed (falling_back_updated parsed)
        (λ o.
          full remote registry cfg req parsed (or_fallback s.cache req.manufacturer parsed.serial o)
            s)
        _ s refl (λ r. unfold refresh_full in refl)
  rest-step req (falling_back_updated parsed) s =
      rest-after_search remote registry cfg req parsed (fetching_all parsed)
        (λ o. full remote registry cfg req parsed o s) _ s refl (λ r. unfold refresh_full in refl)
  rest-step req (fetching_all parsed) s =
      unfold refresh_full in unfold fetch_full in rest-after_all remote registry cfg req parsed _ s
  rest-step req (storing_all rs parsed) s = refl
  rest-step req (looking_up_all parsed) s =
      unfold search_cache in
      rest-after_search remote registry cfg req parsed (falling_back_all parsed)
        (λ o.
          searched remote registry cfg parsed
            (ok (or_fallback s.cache req.manufacturer parsed.serial o), s))
        _ s refl (λ r. refl)
  rest-step req (falling_back_all parsed) s =
      rest-after_search remote registry cfg req parsed (absent parsed)
        (λ o. searched remote registry cfg parsed (ok o, s)) _ s refl (λ r. refl)
  rest-step req (absent parsed) s = refl
  rest-step req (creating parsed r m ms) s =
      unfold create_channel in rest-after_create remote registry cfg req parsed r _ ms _ s
  rest-step req (not_created r tag x) s = refl
  rest-step req (counting_channel parsed r mapping ms) s = refl
  rest-step req (storing_channel parsed r mapping ms) s =
      rest-after_store remote registry cfg req parsed ms _ s
  rest-step req (stamping parsed sample) s = unfold deliver in refl
  rest-step req (enqueueing parsed envelope) s = refl
  rest-step req (counting parsed) s = refl
  rest-step req (finished result) s = refl

  rest-steps :
      (n : ℕ) (req : Request) (pc : Pc E X) (s : Service W)
      → rest_at remote registry cfg req (steps n req pc s) ≡ rest remote registry cfg req pc s
  unfolding steps
  rest-steps zero req pc s = refl
  rest-steps (suc n) req pc s = rest-steps n req _ _ ∙ rest-step req pc s

  left-steps :
      (n : ℕ) (req : Request) (pc : Pc E X) (s : Service W)
      → left registry req (steps n req pc s).0 ≤ left registry req pc - n
  unfolding steps
  left-steps zero req pc s = omega arith
  left-steps (suc n) req pc s =
      omega (arith, left-steps n req _ _, left-step remote registry cfg req pc s)

  left-arrived : (req : Request) → left registry {X = X} req arrived ≡ budget registry req
  unfolding left
  left-arrived req = refl

  finished-steps :
      (req : Request) (p : Pc E X × Service W) (a : Answers W E X)
      → rest_at remote registry cfg req p ≡ a
      → IsFinished p.0
      → p ≡ (finished a.0, a.1)
  unfolding rest
  finished-steps req (pc, s) a h (o, e) =
      subst
        (λ q.
          rest_at remote registry cfg req (q, s) ≡ a
          → ◌≡◌ {A = Pc E X × Service W} (q, s) (finished a.0, a.1))
        (sym e) (λ k. ap (λ (b : Answers W E X). (finished b.0, b.1)) k) h

  -- Run alone for `budget` accesses or more, where `budget` is at most fifteen and three for each
  -- measurement of its upload, a request is finished: it has the result of Handle and has left the
  -- state as Handle does.
  pub steps-handle :
      (n : ℕ) (req : Request) (s : Service W)
      → budget registry req ≤ n
      → steps n req arrived s
        ≡ (finished (handle remote registry cfg req s).0, (handle remote registry cfg req s).1)
  steps-handle n req s h =
      finished-steps req (steps n req arrived s) _
        (rest-steps n req arrived s ∙ (unfold rest in refl))
        (left-IsFinished registry req _
          (omega (arith, h, left-steps n req arrived s, left-arrived req)))
