-- ===== src/Proxy/Headers.antt =====
-- The headers that proxy.rs sends upstream and back.
use mathlib.Core.List.{foldl}
use mathlib.Core.Path.{subst}
use prismproxy.Prelude.{
  String, ◌≡◌, refl, sym, ap, ◌∙◌, Bool, true, Option, none, some, List, [], ◌∷◌, arith, any,
  str_eq, eq_iff, if◌then◌else◌, Bool-cases, inl, inr,
}
use prismproxy.Http.{Http, HttpLaws, first_of_name, or_else}
use prismproxy.Proxy.{hop_by_hop, strip, insert_if, proto, upstream_headers, copy_headers}

or_else_assoc : {A : Type 0} (a b c : Option A) → or_else (or_else a b) c ≡ or_else a (or_else b c)
or_else_assoc none b c = refl
or_else_assoc (some x) b c = refl

module _ (http : Http) (laws : HttpLaws http) where
  open http use {get, insert, remove, append, parse_value}

  get-remove_all :
      (k : String) (names : List String) (h : http.Headers)
      → get k (foldl (λ acc name. remove name acc) h names)
        ≡ (if any (λ n. str_eq n k) names then none else get k h)
  get-remove_all k [] h = refl
  get-remove_all k (name ∷ names) h =
      get-remove_all k names (remove name h) ∙ ground (arith, laws.get-remove name k h)

  unfoldable pub is_hop_by_hop : String → Bool
  is_hop_by_hop k = any (λ n. str_eq n k) hop_by_hop

  -- After `strip` the eight hop-by-hop names have no value, and every other name has its own.
  pub get-strip :
      (k : String) (h : http.Headers)
      → get k (strip http h) ≡ (if is_hop_by_hop k then none else get k h)
  unfolding strip is_hop_by_hop
  get-strip k h = get-remove_all k hop_by_hop h

  get-append_all :
      (k : String) (pairs : List (String × http.Value)) (h : http.Headers)
      → get k (foldl (λ acc (entry : String × http.Value). append entry.0 entry.1 acc) h pairs)
        ≡ or_else (get k h) (first_of_name k pairs)
  get-append_all k [] h = ground arith
  get-append_all k ((j, v) ∷ pairs) h =
      get-append_all k pairs (append j v h) ∙ ground (arith, laws.get-append j k v h)

  get-copy_headers : (k : String) (h : http.Headers) → get k (copy_headers http h) ≡ get k h
  unfolding copy_headers
  get-copy_headers k h =
      get-append_all k (http.entries h) http.empty
      ∙ rw (laws.get-empty k) (sym (laws.get-entries k h))

  -- The value that the upstream finds for a name, if the client sent `h` and `host`, `ip` and `scheme`
  -- are the values of the texts `upstream_addr`, `client_ip` and `proto is_tls`.
  abbrev pub sent_value :
      Option http.Value → http.Value → http.Value → http.Headers → String → Option http.Value
  sent_value host ip scheme h k =
      if str_eq "host" k
      then or_else host (get "host" h)
      else if str_eq "x-forwarded-for" k
      then some ip
      else if str_eq "x-forwarded-proto" k
      then some scheme
      else if str_eq "x-forwarded-host" k
      then or_else host (or_else (get "host" h) (get "x-forwarded-host" h))
      else if is_hop_by_hop k
      then none
      else get k h

  get-insert_if :
      (name k : String) (o : Option http.Value) (h : http.Headers)
      → get k (insert_if http name o h) ≡ (if str_eq name k then or_else o (get k h) else get k h)
  get-insert_if name k none h = ground arith
  get-insert_if name k (some v) h = ground (arith, laws.get-insert name k v h)

  module _ (host : Option http.Value) (ip scheme : http.Value) (h : http.Headers) where
    -- The headers before `x-forwarded-host`, and all of them.
    abbrev forwarded : http.Headers
    forwarded =
        insert "x-forwarded-proto" scheme
          (insert "x-forwarded-for" ip (insert_if http "host" host (strip http h)))

    abbrev complete : http.Headers
    complete = insert_if http "x-forwarded-host" (get "host" forwarded) forwarded

    get-forwarded :
        (k : String)
        → get k forwarded ≡ (
            if str_eq "x-forwarded-proto" k
            then some scheme
            else if str_eq "x-forwarded-for" k
            then some ip
            else if str_eq "host" k
            then or_else host (if is_hop_by_hop k then none else get k h)
            else if is_hop_by_hop k
            then none
            else get k h)
    get-forwarded k = simp (laws.get-insert, get-insert_if, get-strip)

    get-complete :
        (k : String)
        → get k complete ≡ (
            if str_eq "x-forwarded-host" k
            then or_else (or_else host (get "host" h)) (get k forwarded)
            else get k forwarded)
    unfolding is_hop_by_hop
    get-complete k =
        get-insert_if "x-forwarded-host" k (get "host" forwarded) forwarded
        ∙ rw (get-forwarded "host")

    complete-sent_value : (k : String) → get k complete ≡ sent_value host ip scheme h k
    unfolding is_hop_by_hop
    complete-sent_value k = elim (Bool-cases (str_eq "host" k)) [
      | inl e ↦ at_name "host" e (get-complete "host" ∙ get-forwarded "host")
      | inr n₁ ↦ elim (Bool-cases (str_eq "x-forwarded-for" k)) [
        | inl e ↦
            at_name "x-forwarded-for" e
              (get-complete "x-forwarded-for" ∙ get-forwarded "x-forwarded-for")
        | inr n₂ ↦ elim (Bool-cases (str_eq "x-forwarded-proto" k)) [
          | inl e ↦
              at_name "x-forwarded-proto" e
                (get-complete "x-forwarded-proto" ∙ get-forwarded "x-forwarded-proto")
          | inr n₃ ↦ elim (Bool-cases (str_eq "x-forwarded-host" k)) [
            | inl e ↦ at_name "x-forwarded-host" e (
                get-complete "x-forwarded-host"
                ∙ ap (or_else (or_else host (get "host" h))) (get-forwarded "x-forwarded-host")
                ∙ or_else_assoc host (get "host" h) (get "x-forwarded-host" h))
            | inr n₄ ↦
                rw (n₁, n₂, n₃, n₄) (get-complete k ∙ rw n₄ (get-forwarded k ∙ rw (n₃, n₂, n₁)))
          ]
        ]
      ]
    ]
      where
        at_name :
            (name : String)
            → str_eq name k ≡ true
            → get name complete ≡ sent_value host ip scheme h name
            → get k complete ≡ sent_value host ip scheme h k
        at_name name e =
            subst (λ j. get j complete ≡ sent_value host ip scheme h j) ((eq_iff name k).0 e)

  -- Whenever the proxy does not panic, the request that it sends upstream has for each name the value
  -- of the table `sent_value`: the address of the upstream as `host` (the client's, if the address is
  -- no header value), the client's IP address and the scheme in place of whatever the client sent
  -- under `x-forwarded-for` and `x-forwarded-proto`, the new `host` once more as `x-forwarded-host`,
  -- no hop-by-hop header, and the client's value for every other name.
  pub upstream_headers-sent_value :
      (upstream_addr client_ip : String) (is_tls : Bool) (h sent : http.Headers)
      (ip scheme : http.Value) (k : String)
      → parse_value client_ip ≡ some ip
      → parse_value (proto http is_tls) ≡ some scheme
      → upstream_headers http upstream_addr client_ip is_tls h ≡ some sent
      → get k (copy_headers http sent) ≡ sent_value (parse_value upstream_addr) ip scheme h k
  unfolding upstream_headers
  upstream_headers-sent_value upstream_addr client_ip is_tls h sent ip scheme k e_ip e_scheme e =
      let same : complete (parse_value upstream_addr) ip scheme h ≡ sent = ground arith in
      get-copy_headers k sent
      ∙ ap (get k) (sym same)
      ∙ complete-sent_value (parse_value upstream_addr) ip scheme h k
