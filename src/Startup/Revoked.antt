-- ===== src/Startup/Revoked.antt =====
-- A revoked key at the server of cmd/server/main.go.
use go_rate_limiter.Prelude.{ℕ, ◌≡◌, false, List, inl, inr, Bool-cases}
use go_rate_limiter.Prelude.Int.{ℤ}
use go_rate_limiter.Errors.{ok}
use go_rate_limiter.Entity.{Rule}
use go_rate_limiter.Redis.Store.{Store}
use go_rate_limiter.Redis.Keys.{Platform}
use go_rate_limiter.Auth.{TenantContext, authenticate}
use go_rate_limiter.Auth.Soundness.{IsGenuine, authenticate_iff}
use go_rate_limiter.Postgres.{Db}
use go_rate_limiter.Postgres.History.{Later}
use go_rate_limiter.Postgres.Keys.{auth_ports}
use go_rate_limiter.Postgres.Keys.Final.{revoked, revoked_forever}
use go_rate_limiter.Config.{Config}
use go_rate_limiter.Http.{Request, Headers}
use go_rate_limiter.Http.Server.{Library, State, new_mux}
use go_rate_limiter.Startup.Guarded.Front.{is_open, IsRefused, new_mux-IsRefused}
use go_rate_limiter.Startup.OnStores.{World, Circumstances, ports_of, services, served_by}

module _ (p : Platform) (odd : Rule → Store → List ℤ × Store) (cfg : Config) (c : Circumstances)
    (now : ℕ) (lib : Library) where
  -- Tables that cannot be read authenticate nobody.
  ports_of-IsGenuine :
      (w : World) (r : Request) (tc : TenantContext)
      → IsGenuine p (ports_of p odd cfg c w) (r.header "X-API-Key") tc
      → IsGenuine p (auth_ports w.db) (r.header "X-API-Key") tc
  ports_of-IsGenuine w r tc g = elim (Bool-cases c.reached) [
    | inl e ↦ rw e at g
    | inr e ↦ absurd (let stored = rw e at g.stored in cc)
  ]

  module _ (r : Request) (s : State lib (served_by p odd cfg c now lib)) (tc : TenantContext)
      (db : Db) (known : authenticate p (auth_ports db) (r.header "X-API-Key") ≡ ok tc)
      (later : Later (revoked p (r.header "X-API-Key") tc db known) s.1.1.1.db)
      (closed : is_open cfg (services p odd cfg c) now lib r ≡ false) where
    unknown :
        (other : TenantContext)
        → ¬ IsGenuine p (ports_of p odd cfg c s.1.1.1) (r.header "X-API-Key") other
    unknown other g =
        let genuine = ports_of-IsGenuine s.1.1.1 r other g in
        let there =
          (authenticate_iff p (auth_ports s.1.1.1.db) (r.header "X-API-Key") other).1 genuine in
        let (e, refused, _) =
          revoked_forever p (r.header "X-API-Key") tc db known s.1.1.1.db later in
        cc

    -- Once a key has been revoked, a request with that key to any path but the health, metrics, admin and
    -- project routes is turned away, with 204 where it is a preflight and origins are configured and
    -- with 401, 403 or 503 otherwise, and nothing at all changes, whatever projects are created, keys
    -- added and keys revoked in between, whatever the cache and Redis hold, and whatever fails.
    pub new_mux-Revoked :
        (hs : Headers)
        → IsRefused cfg
            (services p odd cfg c)
            now
            lib
            r
            s
            cfg.dashboard_origins
            (new_mux lib (served_by p odd cfg c now lib) now hs r s)
    unfolding services
    new_mux-Revoked hs = new_mux-IsRefused cfg (services p odd cfg c) now lib r s closed unknown hs
