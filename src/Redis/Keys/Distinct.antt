-- ===== src/Redis/Keys/Distinct.antt =====
-- When two keys of internal/infrastructure/redis/keys.go can be one.
use mathlib.Core.List.{append_assoc, append-nil}
use native.Mathlib.Omega.{arith}
use go_rate_limiter.Prelude.{
  ◌≡◌, ◌≢◌, refl, List, [], ◌∷◌, ◌++◌, length, take, length-take, length-append, All, All-lookup,
  Member, subst, ◌↔◌, ap, sym, ◌∙◌, ==_refl, ◌+◌,
}
use go_rate_limiter.Prelude.Text.{Text, txt, text_eq}
use go_rate_limiter.Entity.{Uuid}
use go_rate_limiter.Redis.Keys.{
  Platform, TenantRouteKey, colon, hex_encode, hash_segment, route_hash, subject_segment,
  token_bucket_key, sliding_window_base, sliding_window_keys,
}
use go_rate_limiter.Redis.SlidingWindow.Refines.{AreDistinct}

-- What is relied on of the platform: a UUID is printed injectively in a fixed width, and SHA-256
-- gives a fixed number of bytes, at least the eight that the keys keep.
pub record IsRegular (p : Platform) : Type 0 where
  pub uuid_width : (a b : Uuid) → length (p.uuid_string a) ≡ length (p.uuid_string b)
  pub uuid_injective : (a b : Uuid) → p.uuid_string a ≡ p.uuid_string b → a ≡ b
  pub sha_width : (s : Text) → length (p.sha256 s) ≡ 32

text_eq-append_left : (s a b : Text) → text_eq (s ++ a) (s ++ b) ≡ text_eq a b
unfolding text_eq
text_eq-append_left [] a b = refl
text_eq-append_left (c ∷ s) a b = ground (arith, ==_refl c, text_eq-append_left s a b)

append_cancel : (a b x y : Text) → length a ≡ length b → a ++ x ≡ b ++ y → (a ≡ b) × (x ≡ y)
append_cancel [] [] x y h e = (refl, e)
append_cancel [] (d ∷ b) x y h e = absurd (omega arith)
append_cancel (c ∷ a) [] x y h e = absurd (omega arith)
append_cancel (c ∷ a) (d ∷ b) x y h e =
    let tails : a ++ x ≡ b ++ y = cc in
    let (same, rest) = append_cancel a b x y (omega arith) tails in (ground arith, rest)

length-hex_encode : (s : Text) → length (hex_encode s) ≡ length s + length s
unfolding hex_encode
length-hex_encode [] = omega arith
length-hex_encode (b ∷ s) = omega (arith, length-hex_encode s)

module _ (p : Platform) where
  -- The three keys of a sliding window differ.
  pub sliding_window_keys-AreDistinct : (k : TenantRouteKey) → AreDistinct (sliding_window_keys p k)
  unfolding sliding_window_keys txt text_eq
  sliding_window_keys-AreDistinct k = record {
    curr_prev = text_eq-append_left (sliding_window_base p k) (txt ":curr") (txt ":prev");
    prev_curr = text_eq-append_left (sliding_window_base p k) (txt ":prev") (txt ":curr");
    curr_idx = text_eq-append_left (sliding_window_base p k) (txt ":curr") (txt ":idx");
    idx_curr = text_eq-append_left (sliding_window_base p k) (txt ":idx") (txt ":curr");
    prev_idx = text_eq-append_left (sliding_window_base p k) (txt ":prev") (txt ":idx");
    idx_prev = text_eq-append_left (sliding_window_base p k) (txt ":idx") (txt ":prev");
  }

  -- What a key of either kind shares: the tenant, the route's hash and the subject's segment.
  abbrev pub tail_of : TenantRouteKey → Text
  tail_of k =
      p.uuid_string k.tenant_id ++ (colon ++ (route_hash p k.route ++ subject_segment p k.subject))

  -- All the keys that the checks of a counter may use.
  abbrev pub all_keys : TenantRouteKey → List Text
  all_keys k =
      let w = sliding_window_keys p k in token_bucket_key p k ∷ w.curr ∷ w.prev ∷ w.idx ∷ []

  module _ (r : IsRegular p) where
    length-hash_segment : (s t : Text) → length (hash_segment p s) ≡ length (hash_segment p t)
    unfolding hash_segment
    length-hash_segment s t = omega (
      arith,
      length-hex_encode (take 8 (p.sha256 s)),
      length-hex_encode (take 8 (p.sha256 t)),
      length-take 8 (p.sha256 s),
      length-take 8 (p.sha256 t),
      r.sha_width s,
      r.sha_width t,
    )

    tail_of-injective :
        (k l : TenantRouteKey) (x y : Text)
        → tail_of k ++ x ≡ tail_of l ++ y
        → (k.tenant_id ≡ l.tenant_id)
          × (route_hash p k.route ++ (subject_segment p k.subject ++ x)
              ≡ route_hash p l.route ++ (subject_segment p l.subject ++ y))
    tail_of-injective k l x y e =
        let regrouped = simp append_assoc at e in
        let (ids, rest) = append_cancel _ _ _ _ (r.uuid_width k.tenant_id l.tenant_id) regrouped in
        (r.uuid_injective k.tenant_id l.tenant_id ids, cc)

    -- A key of a counter, whatever its kind.
    abbrev IsKeyOf : TenantRouteKey → Text → Type 0
    IsKeyOf k z =
        (head : Text) × (rest : Text) × (length head ≡ 6) × (z ≡ head ++ (tail_of k ++ rest))

    IsKeyOf-tenant :
        (k l : TenantRouteKey) (z : Text) → IsKeyOf k z → IsKeyOf l z → k.tenant_id ≡ l.tenant_id
    IsKeyOf-tenant k l z (h, x, n, e) (h', x', n', e') =
        let (_, rest) = append_cancel h h' _ _ (n ∙ sym n') (sym e ∙ e') in
        (tail_of-injective k l x x' rest).0

    token_bucket_key-IsKeyOf : (k : TenantRouteKey) → IsKeyOf k (token_bucket_key p k)
    unfolding token_bucket_key txt
    token_bucket_key-IsKeyOf k =
        (txt "rl:tb:", [], refl, ap (λ t. txt "rl:tb:" ++ t) (sym (append-nil (tail_of k))))

    base-IsKeyOf :
        (k : TenantRouteKey) (suffix : Text) → IsKeyOf k (sliding_window_base p k ++ suffix)
    unfolding sliding_window_base txt
    base-IsKeyOf k suffix =
        (txt "rl:sw:", suffix, refl, append_assoc (txt "rl:sw:") (tail_of k) suffix)

    all_keys-IsKeyOf : (k : TenantRouteKey) → All (IsKeyOf k) (all_keys k)
    unfolding sliding_window_keys
    all_keys-IsKeyOf k = (
      token_bucket_key-IsKeyOf k,
      (
        base-IsKeyOf k (txt ":curr"),
        (base-IsKeyOf k (txt ":prev"), (base-IsKeyOf k (txt ":idx"), tt)),
      ),
    )

    -- No key of one tenant is a key of another, of whatever kind, route and subject.
    pub all_keys-ne :
        (k l : TenantRouteKey) (y z : Text)
        → k.tenant_id ≢ l.tenant_id
        → Member y (all_keys k)
        → Member z (all_keys l)
        → y ≢ z
    all_keys-ne k l y z n my mz e =
        let hy = All-lookup (IsKeyOf k) my (all_keys-IsKeyOf k) in
        let hz = All-lookup (IsKeyOf l) mz (all_keys-IsKeyOf l) in
        n (IsKeyOf-tenant k l z (subst (IsKeyOf k) e hy) hz)

    subject_segment-cancel :
        (s t x : Text)
        → subject_segment p s ++ x ≡ subject_segment p t ++ x
        → subject_segment p s ≡ subject_segment p t
    subject_segment-cancel s t x e =
        let sizes : length (subject_segment p s) ≡ length (subject_segment p t) = omega (
          arith,
          ap length e,
          length-append (subject_segment p s) x,
          length-append (subject_segment p t) x,
        ) in
        (append_cancel _ _ x x sizes e).0

    -- Two token bucket keys are one exactly when the tenants, the hashes of the routes and the
    -- segments of the subjects are the same.
    token_bucket_key-eq_iff :
        (k l : TenantRouteKey)
        → (token_bucket_key p k ≡ token_bucket_key p l) ↔ (
            (k.tenant_id ≡ l.tenant_id)
            × (route_hash p k.route ≡ route_hash p l.route)
            × (subject_segment p k.subject ≡ subject_segment p l.subject))
    unfolding token_bucket_key route_hash
    token_bucket_key-eq_iff k l = (
      (λ e.
          let (_, tails) = append_cancel (txt "rl:tb:") (txt "rl:tb:") _ _ refl e in
          let padded : tail_of k ++ [] ≡ tail_of l ++ [] =
            cc (append-nil (tail_of k), append-nil (tail_of l), tails) in
          let (tenant, rest) = tail_of-injective k l [] [] padded in
          let (route, segments) = append_cancel _ _ _ _ (length-hash_segment _ _) rest in
          (tenant, route, subject_segment-cancel k.subject l.subject [] segments)),
      λ h. rw (h.0, h.1, h.2) refl,
    )
