-- ===== src/Relay/HttpIngress/HeaderLists.antt =====
-- crates/relay-server/src/http_ingress.rs: which headers pass in each direction.
use tunely.Prelude.{
  Bool, ◌↔◌, true, ◌≡◌, refl, false, ◌||◌, some, List, [], ◌∷◌, All, arith, ◌⊎◌, Bool-cases,
  Option-cases, inl, inr,
}
use mathlib.Core.Path.{subst}
use tunely.Prelude.Bytes.{
  Text, codes, eq_ignore_ascii_case, to_ascii_lowercase, lower, contains, contains_iff,
}
use mathlib.Core.List.{Mem, not-mem-nil, mem-cons_self, mem-cons_of_mem, eq-or-mem_of_mem-cons}
use mathlib.Core.Logic.{∥∥₁_prop}
use mathlib.Core.Logic.Or
use tunely.External.{Http}
use tunely.Protocol.Http.{is_hop_header}
use tunely.Relay.HttpIngress.{flatten_entries, flatten_headers}

-- `host` and the eight hop-by-hop headers, in lower case.
abbrev pub stopped_headers : List Text
stopped_headers =
    codes "host"
    ∷ codes "connection"
    ∷ codes "keep-alive"
    ∷ codes "proxy-authenticate"
    ∷ codes "proxy-authorization"
    ∷ codes "te"
    ∷ codes "trailers"
    ∷ codes "transfer-encoding"
    ∷ codes "upgrade"
    ∷ []

-- A header whose name is none of these, whatever the case of its letters.
abbrev pub Passes : Text × Text → Type 0
Passes h = ¬ Mem (to_ascii_lowercase h.0) stopped_headers

-- The test that the code makes of a name.
abbrev stops : Text → Bool
stops name = is_hop_header name || eq_ignore_ascii_case name (codes "host")

or_comm : (a b : Bool) → (a || b) ≡ (b || a)
or_comm a b = ground arith

stops_iff : (name : Text) → (stops name ≡ true) ↔ Mem (to_ascii_lowercase name) stopped_headers
unfolding is_hop_header lower
stops_iff name =
    let same : stops name ≡ contains stopped_headers (to_ascii_lowercase name) =
      or_comm (is_hop_header name) (eq_ignore_ascii_case name (codes "host")) in
    rw same (contains_iff stopped_headers (to_ascii_lowercase name))

stops-Passes : (name text : Text) → Passes (name, text) → stops name ≡ false
stops-Passes name text passes = elim (Bool-cases (stops name)) [
  | inl stopped ↦ absurd (passes ((stops_iff name).0 stopped))
  | inr other ↦ other
]

module _ (http : Http) where
  flatten_entries-Passes :
      (es : List (Text × http.HeaderValue)) → All Passes (flatten_entries http es)
  unfolding flatten_entries
  flatten_entries-Passes [] = tt
  flatten_entries-Passes ((name, value) ∷ es) =
      let rest = flatten_entries-Passes es in
      elim (Bool-cases (stops name)) [
        | inl stopped ↦ rw stopped rest
        | inr passed ↦
            let passes : ¬ Mem (to_ascii_lowercase name) stopped_headers =
              λ m. cc (passed, (stops_iff name).1 m) in
            elim (Option-cases (http.to_str value)) [
              | inl e ↦ rw (passed, e) rest
              | inr (text, e) ↦ rw (passed, e) (passes, rest)
            ]
      ]

  keep_one :
      (es : List (Text × http.HeaderValue)) (name text : Text) (value : http.HeaderValue)
      → Passes (name, text)
      → http.to_str value ≡ some text
      → flatten_entries http ((name, value) ∷ es) ≡ (name, text) ∷ flatten_entries http es
  unfolding flatten_entries
  keep_one es name text value passes e = rw (stops-Passes name text passes, e) refl

  keep_or_skip :
      (es : List (Text × http.HeaderValue)) (n : Text) (v : http.HeaderValue)
      → (flatten_entries http ((n, v) ∷ es) ≡ flatten_entries http es)
        ⊎ ((x : Text × Text) × (flatten_entries http ((n, v) ∷ es) ≡ x ∷ flatten_entries http es))
  unfolding flatten_entries
  keep_or_skip es n v = elim (Bool-cases (stops n)) [
    | inl hop ↦ inl (ground arith)
    | inr other ↦ elim (Option-cases (http.to_str v)) [
      | inl e ↦ inl (ground arith)
      | inr (text, e) ↦ inr ((n, text), ground arith)
    ]
  ]

  flatten_entries-keeps :
      (es : List (Text × http.HeaderValue)) (name text : Text) (value : http.HeaderValue)
      → Passes (name, text)
      → http.to_str value ≡ some text
      → Mem (name, value) es
      → Mem (name, text) (flatten_entries http es)
  flatten_entries-keeps [] name text value passes e m = absurd (not-mem-nil m)
  flatten_entries-keeps ((n, v) ∷ es) name text value passes e m =
      Or.elim ∥∥₁_prop (eq-or-mem_of_mem-cons m)
        (λ here.
          subst (λ p. Mem (name, text) (flatten_entries http (p ∷ es))) here
            (rw (keep_one es name text value passes e) mem-cons_self))
        (λ later.
          let kept = flatten_entries-keeps es name text value passes e later in
          elim (keep_or_skip es n v) [
            | inl skip ↦ rw skip kept
            | inr (x, keep) ↦ rw keep (mem-cons_of_mem x kept)
          ])

  -- Of the headers of a client none named `host`, `connection`, `keep-alive`, `proxy-authenticate`,
  -- `proxy-authorization`, `te`, `trailers`, `transfer-encoding` or `upgrade`, in whatever case,
  -- reaches the agent, and every other header whose value is text does.
  pub flatten_headers_lem :
      (headers : http.HeaderMap)
      → All Passes (flatten_headers http headers)
        × ((name text : Text) (value : http.HeaderValue)
            → Mem (name, value) (http.entries headers)
            → Passes (name, text)
            → http.to_str value ≡ some text
            → Mem (name, text) (flatten_headers http headers))
  unfolding flatten_headers
  flatten_headers_lem headers = (
    flatten_entries-Passes (http.entries headers),
    λ name text value m passes e.
        flatten_entries-keeps (http.entries headers) name text value passes e m,
  )
