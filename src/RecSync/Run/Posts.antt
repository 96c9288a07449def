-- ===== src/RecSync/Run/Posts.antt =====
-- The reservations that a run of docker/annict-rec-sync/sync.py posts: none twice, none that exists
-- already, none in a dry run, and as many as it counts.
use my_infra.Prelude.{
  ℕ, ◌≡◌, refl, ap, true, false, ◌||◌, List, [], ◌∷◌, arith, ◌==◌, nat_eq, contains, IsNodup, All,
}
use my_infra.RecSync.Http.{
  Call, post_reserve, search_works, get_services, get_reserves, get_schedule, Outcome, returned,
  raised, out_of_fuel,
}
use my_infra.RecSync.Reserves.{add}
use my_infra.RecSync.Season.{Work}
use my_infra.RecSync.Run.Booking.{State}
use my_infra.RecSync.Run.Steps.{noted, posted, reserve_one-Ends, get_schedule-Ends}
use my_infra.RecSync.Run.Main.{Env, schedule_start_ms, schedule_days, process_works}
use my_infra.RecSync.Run.Keeps.{Ends, Rules, process_works-Keeps}

-- The ids of the reservations posted, the newest first.
abbrev pub posts : List Call → List ℕ
posts [] = []
posts (post_reserve b ∷ log) = b.program_id ∷ posts log
posts (search_works season after ∷ log) = posts log
posts (get_services id ∷ log) = posts log
posts (get_reserves offset limit ∷ log) = posts log
posts (get_schedule ch start days ∷ log) = posts log

-- While the run goes on: each posted id is now known, and was not among the ids known at first.
record Live (known : List ℕ) (s : State) : Type 0 where
  once : IsNodup (posts s.log)
  booked : All (λ p. contains s.existing p ≡ true) (posts s.log)
  fresh : All (λ p. contains known p ≡ false) (posts s.log)
  grows : (p : ℕ) → contains known p ≡ true → contains s.existing p ≡ true

-- Also where it has been cut short.
pub record NoDouble (known : List ℕ) (s : State) : Type 0 where
  pub once : IsNodup (posts s.log)
  pub fresh : All (λ p. contains known p ≡ false) (posts s.log)

not_booked_yet :
    (existing : List ℕ) (p : ℕ) (ps : List ℕ)
    → All (λ q. contains existing q ≡ true) ps
    → contains existing p ≡ false
    → contains ps p ≡ false
not_booked_yet existing p [] h new = refl
not_booked_yet existing p (q ∷ ps) h new =
    ground (arith, not_booked_yet existing p ps h.1 new, ap (contains existing) {x = q} {y = p})

contains-add : (p : ℕ) (ids : List ℕ) (q : ℕ) → contains (add p ids) q ≡ (p == q || contains ids q)
unfolding add
contains-add p ids q = ground (arith, ap (contains ids) {x = p} {y = q})

booked-add :
    (p : ℕ) (ids ps : List ℕ)
    → All (λ q. contains ids q ≡ true) ps
    → All (λ q. contains (add p ids) q ≡ true) ps
booked-add p ids [] h = tt
booked-add p ids (q ∷ ps) h = (ground (arith, contains-add p ids q, h.0), booked-add p ids ps h.1)

unknown_before :
    (known existing : List ℕ) (p : ℕ)
    → (contains known p ≡ true → contains existing p ≡ true)
    → contains existing p ≡ false
    → contains known p ≡ false
unknown_before known existing p grows new = ground (arith, grows)

module _ (e : Env) (known : List ℕ) where
  Live-noted : (s : State) (p : ℕ) → Live known s → Live known (noted p s)
  Live-noted s p h = record {
    once = h.once;
    booked = booked-add p s.existing (posts s.log) h.booked;
    fresh = h.fresh;
    grows = λ q k. ground (arith, contains-add p s.existing q, h.grows q k);
  }

  NoDouble-posted :
      (s : State) (p : ℕ)
      → contains s.existing p ≡ false
      → Live known s
      → NoDouble known (posted e.settings p s)
  NoDouble-posted s p new h = record {
    once = (not_booked_yet s.existing p (posts s.log) h.booked new, h.once);
    fresh = (unknown_before known s.existing p (h.grows p) new, h.fresh);
  }

  Live-posted :
      (s : State) (p : ℕ)
      → contains s.existing p ≡ false
      → Live known s
      → Live known (noted p (posted e.settings p s))
  Live-posted s p new h = record {
    once = (NoDouble-posted s p new h).once;
    booked = (
      ground (arith, contains-add p s.existing p),
      booked-add p s.existing (posts s.log) h.booked,
    );
    fresh = (NoDouble-posted s p new h).fresh;
    grows = λ q k. ground (arith, contains-add p s.existing q, h.grows q k);
  }

  Live-rules : Rules e (Live known) (NoDouble known)
  Live-rules = record {
    counters = λ s st names same h. record {
      once = h.once;
      booked = h.booked;
      fresh = h.fresh;
      grows = h.grows;
    };
    scraper =
        λ s id h. record { once = h.once; booked = h.booked; fresh = h.fresh; grows = h.grows };
    guide = λ ch s h.
        get_schedule-Ends (Live known) (NoDouble known) e.net (schedule_start_ms e)
          (schedule_days e) ch s h (λ _. record { once = h.once; fresh = h.fresh })
          (λ _ schedule. record {
            once = h.once;
            booked = h.booked;
            fresh = h.fresh;
            grows = h.grows;
          });
    reserve = λ p s h.
        reserve_one-Ends (Live known) (NoDouble known) e.settings e.net p s
          (λ _. record { once = h.once; booked = h.booked; fresh = h.fresh; grows = h.grows })
          (λ _ _. Live-noted s p h) (λ new _. NoDouble-posted s p new h)
          (λ new _. Live-posted s p new h);
  }

Live-NoDouble :
    {known : List ℕ} (r : Outcome (Unit {0}) × State)
    → Ends (Live known) (NoDouble known) r
    → NoDouble known r.1
Live-NoDouble (returned a, s) h = record { once = h.once; fresh = h.fresh }
Live-NoDouble (raised, s) h = h
Live-NoDouble (out_of_fuel, s) h = h

-- From a state in which nothing has been posted yet, however the servers answer and however the run
-- ends, no programme is posted twice and none that was known to be reserved at the start.
pub process_works-NoDouble :
    (e : Env) (works : List Work) (s : State)
    → posts s.log ≡ []
    → NoDouble s.existing (process_works e works s).1
process_works-NoDouble e works s nothing_posted = Live-NoDouble (process_works e works s) (
    process_works-Keeps e (Live s.existing) (NoDouble s.existing) (Live-rules e s.existing) works s
      (record {
        once = rw nothing_posted tt;
        booked = rw nothing_posted tt;
        fresh = rw nothing_posted tt;
        grows = λ p h. h;
      }))

-- In a dry run nothing is posted, however the servers answer.
pub process_works_dry :
    (e : Env) (works : List Work) (s : State)
    → e.settings.dry_run ≡ true
    → posts (process_works e works s).1.log ≡ posts s.log
process_works_dry e works s dry =
    both (process_works e works s) (process_works-Keeps e P P rules works s refl)
  where
    P : State → Type 0
    P t = posts t.log ≡ posts s.log

    wet : e.settings.dry_run ≡ false → ⊥
    wet d = cc

    rules : Rules e P P
    rules = record {
      counters = λ s st names same h. h;
      scraper = λ s id h. h;
      guide = λ ch s h.
          get_schedule-Ends P P e.net (schedule_start_ms e) (schedule_days e) ch s h (λ _. h)
            (λ _ _. h);
      reserve = λ p s h.
          reserve_one-Ends P P e.settings e.net p s (λ _. h) (λ _ _. h) (λ _ d. absurd (wet d))
            (λ _ d. absurd (wet d));
    }

    both : (r : Outcome (Unit {0}) × State) → Ends P P r → P r.1
    both (returned a, s) h = h
    both (raised, s) h = h
    both (out_of_fuel, s) h = h
