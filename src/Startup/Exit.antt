-- ===== src/Startup/Exit.antt =====
-- When cmd/server/main.go comes to its listener, and how the process ends.
use go_rate_limiter.Prelude.{◌≡◌, refl, ◌↔◌, String, Option, none, some, arith}
use go_rate_limiter.Prelude.Int.{ℤ}
use go_rate_limiter.Prelude.Text.{Text}
use go_rate_limiter.Errors.{Result, ok, err, before_ok}
use go_rate_limiter.Config.{Config, load}
use go_rate_limiter.Startup.{
  Drivers, ScriptHashes, Services, Started, Ending, listen_failed, stop_signal, new_pool,
  new_client, new_rate_limiter, start, exit_status,
}

module _ {W : Type 0} (getenv : String → Text) (parse_duration : Text → Option ℤ)
    (drivers : Drivers) (unicode_lower : Text → Text)
    (services : Config → ScriptHashes → Services W) where
  abbrev started : Result (Started W)
  started = start getenv parse_duration drivers unicode_lower services

  -- Everything that the server needs is there.
  pub record IsReady (cfg : Config) (hashes : ScriptHashes) : Type 0 where
    pub settings : load getenv parse_duration ≡ ok cfg
    pub database : new_pool drivers cfg.database_url ≡ ok tt
    pub redis : new_client drivers cfg.redis_url ≡ ok tt
    pub scripts : new_rate_limiter drivers ≡ ok hashes

  start-IsReady :
      (done : Started W)
      → started ≡ ok done
      → (cfg : Config) × (hashes : ScriptHashes) × IsReady cfg hashes
  unfolding start
  start-IsReady done h =
      let (cfg, f, a) = before_ok _ (load getenv parse_duration) h in
      let (_, g, b) = before_ok _ (new_pool drivers cfg.database_url) f in
      let (_, k, c) = before_ok _ (new_client drivers cfg.redis_url) g in
      let (hashes, _, d) = before_ok _ (new_rate_limiter drivers) k in
      (cfg, hashes, record { settings = a; database = b; redis = c; scripts = d })

  IsReady-start :
      (cfg : Config) (hashes : ScriptHashes)
      → IsReady cfg hashes
      → exit_status started (stop_signal none) ≡ 0
  unfolding start exit_status
  IsReady-start cfg hashes i =
      rw (i.settings, start) (rw (i.database, i.redis) (rw (i.scripts, exit_status) refl))

  stopped :
      (r : Result (Started W)) (ending : Ending)
      → exit_status r ending ≡ 0
      → ((done : Started W) × (r ≡ ok done)) × (ending ≡ stop_signal none)
  unfolding exit_status
  stopped (err e) ending h = absurd (omega arith)
  stopped (ok done) (listen_failed e) h = absurd (omega arith)
  stopped (ok done) (stop_signal (some e)) h = absurd (omega arith)
  stopped (ok done) (stop_signal none) h = ((done, refl), refl)

  -- The process ends with the status 0 exactly if the settings could be loaded, the database and Redis
  -- were reached, both scripts were loaded, and the server was stopped by a signal and shut down
  -- without an error.
  pub exit_zero_iff :
      (ending : Ending)
      → (exit_status started ending ≡ 0) ↔ (
          ((cfg : Config) × (hashes : ScriptHashes) × IsReady cfg hashes)
          × (ending ≡ stop_signal none))
  exit_zero_iff ending = (
    (λ h. let ((done, e), clean) = stopped started ending h in (start-IsReady done e, clean)),
    λ h. let ((cfg, hashes, i), clean) = h in rw clean (IsReady-start cfg hashes i),
  )
