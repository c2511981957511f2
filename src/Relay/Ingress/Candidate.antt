-- ===== src/Relay/Ingress/Candidate.antt =====
-- crates/relay-server/src/ingress.rs: which requests open a websocket.
use mathlib.Core.List.{Mem, mem-cons_self, mem-cons_of_mem}
use tunely.Prelude.{
  ◌≡◌, Bool, true, false, Option, some, List, [], ◌∷◌, any, is_some, arith, Bool-cases,
  Option-cases, inl, inr,
}
use tunely.Prelude.Bytes.{Text, codes, text_eq, text_eq_iff, eq_ignore_ascii_case}
use tunely.Prelude.Split.{trim, split_commas}
use tunely.External.{Http}
use tunely.Relay.Ingress.{
  has_csv_token, header_eq, is_ws_upgrade_candidate, ingress_path, upgrade_client_ws,
}
use tunely.Relay.HttpIngress.{extract_target_path}

any_witness {ℓ} :
    {A : Type ℓ} (f : A → Bool) (xs : List A) → any f xs ≡ true → (x : A) × Mem x xs × (f x ≡ true)
any_witness f [] h = absurd (cc h)
any_witness f (x ∷ xs) h = elim (Bool-cases (f x)) [
  | inl here ↦ (x, mem-cons_self, here)
  | inr elsewhere ↦
      let (y, m, good) = any_witness f xs (rw elsewhere at h) in (y, mem-cons_of_mem x m, good)
]

module _ (http : Http) where
  open http use {HeaderMap, HeaderValue, get, to_str}

  -- The text of the first header with a name.
  abbrev pub HeaderText : HeaderMap → Text → Text → Type 0
  HeaderText headers name text =
      (value : HeaderValue) × (get headers name ≡ some value) × (to_str value ≡ some text)

  -- A header lists a token, between commas and up to white space and case.
  abbrev pub Lists : HeaderMap → Text → Text → Type 0
  Lists headers name expected =
      (text : Text) × (token : Text) × HeaderText headers name text
      × Mem token (split_commas text)
      × (eq_ignore_ascii_case (trim token) expected ≡ true)

  has_csv_token-Lists :
      (headers : HeaderMap) (name expected : Text)
      → has_csv_token http headers name expected ≡ true
      → Lists headers name expected
  unfolding has_csv_token
  has_csv_token-Lists headers name expected h = elim (Option-cases (get headers name)) [
    | inl absent ↦ absurd (let bad : false ≡ true = rw (absent, has_csv_token) at h in cc bad)
    | inr (value, there) ↦ elim (Option-cases (to_str value)) [
      | inl opaque ↦
          absurd (let bad : false ≡ true = rw (there, opaque, has_csv_token) at h in cc bad)
      | inr (text, reads) ↦
          let (token, m, same) =
            any_witness (λ token. eq_ignore_ascii_case (trim token) expected) (split_commas text)
              (rw (there, reads, has_csv_token) at h) in
          (text, token, (value, there, reads), m, same)
    ]
  ]

  header_eq-HeaderText :
      (headers : HeaderMap) (name expected : Text)
      → header_eq http headers name expected ≡ true
      → (text : Text) × HeaderText headers name text × (eq_ignore_ascii_case text expected ≡ true)
  unfolding header_eq
  header_eq-HeaderText headers name expected h = elim (Option-cases (get headers name)) [
    | inl absent ↦ absurd (let bad : false ≡ true = rw (absent, header_eq) at h in cc bad)
    | inr (value, there) ↦ elim (Option-cases (to_str value)) [
      | inl opaque ↦ absurd (let bad : false ≡ true = rw (there, opaque, header_eq) at h in cc bad)
      | inr (text, reads) ↦ (text, (value, there, reads), rw (there, reads, header_eq) at h)
    ]
  ]

  candidate_parts :
      (method : Text) (headers : HeaderMap)
      → is_ws_upgrade_candidate http method headers ≡ true
      → (method ≡ codes "GET")
        × (has_csv_token http headers (codes "connection") (codes "upgrade") ≡ true)
        × (header_eq http headers (codes "upgrade") (codes "websocket") ≡ true)
        × (is_some (get headers (codes "sec-websocket-key")) ≡ true)
        × (has_csv_token http headers (codes "sec-websocket-version") (codes "13") ≡ true)
  unfolding is_ws_upgrade_candidate
  candidate_parts method headers h =
      let method_is : text_eq method (codes "GET") ≡ true = ground arith in
      (
        (text_eq_iff method (codes "GET")).0 method_is,
        ground arith,
        ground arith,
        ground arith,
        ground arith,
      )

  -- A client's request opens a websocket only for its own tunnel and the path that an HTTP request
  -- would ask for, and only if it is a GET whose headers ask for it: the first `connection` lists
  -- `upgrade`, the first `upgrade` is `websocket`, a key is given and the first version header lists
  -- 13, up to white space and case.
  pub ingress_path-websocket :
      (extracts : Bool) (method : Text) (headers : HeaderMap) (path_and_query : Option Text)
      (tunnel_id path opened target : Text)
      → ingress_path http extracts method headers path_and_query tunnel_id path
        ≡ upgrade_client_ws opened target
      → (opened ≡ tunnel_id)
        × (target ≡ extract_target_path path_and_query tunnel_id path)
        × (method ≡ codes "GET")
        × Lists headers (codes "connection") (codes "upgrade")
        × ((text : Text) × HeaderText headers (codes "upgrade") text
            × (eq_ignore_ascii_case text (codes "websocket") ≡ true))
        × (is_some (get headers (codes "sec-websocket-key")) ≡ true)
        × Lists headers (codes "sec-websocket-version") (codes "13")
  unfolding ingress_path
  ingress_path-websocket extracts method headers path_and_query tunnel_id path opened target e =
      let candidate : is_ws_upgrade_candidate http method headers ≡ true = ground arith in
      let same_tunnel : opened ≡ tunnel_id = ground arith in
      let same_path : target ≡ extract_target_path path_and_query tunnel_id path = ground arith in
      let (get_method, connection, upgrade, key, version) =
        candidate_parts method headers candidate in
      (
        same_tunnel,
        same_path,
        get_method,
        has_csv_token-Lists headers (codes "connection") (codes "upgrade") connection,
        header_eq-HeaderText headers (codes "upgrade") (codes "websocket") upgrade,
        key,
        has_csv_token-Lists headers (codes "sec-websocket-version") (codes "13") version,
      )
