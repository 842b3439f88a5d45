-- ===== src/Tenancy/Host/Normal.antt =====
-- host.ts, `normalizeHost`: the port and the final dot of a name.
use lamp_light.Base.{
  ℕ, ◌≡◌, refl, sym, ap, ◌∙◌, inl, inr, Bool, true, false, Option, none, some, [], ◌∷◌, ◌++◌,
  nat_eq, nat_eq_iff, if◌then◌else◌, all, arith, Bool-cases, and-eq-true, any-append, append-nil,
  append_assoc,
}
use lamp_light.Base.Text.{Text, codes, starts_with, ends_with, has}
use lamp_light.Base.Text.Laws.{
  index_of_absent, index_of-append, take-append, ends_with-append, drop_last-append,
}
use lamp_light.Tenancy.Host.{
  is_host_char, nonempty, all_of, normalize_v6, strip_port, strip_dot, check_host, normalize_name,
}
use lamp_light.Tenancy.Host.Shape.{IsName}

pub host_chars-has :
    (c : ℕ) (s : Text) → is_host_char c ≡ false → all is_host_char s ≡ true → has c s ≡ false
host_chars-has c [] n h = refl
host_chars-has c (a ∷ s) n h =
    let (here, later) = and-eq-true (is_host_char a) (all is_host_char s) h in
    elim (Bool-cases (nat_eq c a)) [
      | inl same ↦
          let e : c ≡ a = (nat_eq_iff c a).0 same in
          absurd (true≢false (sym here ∙ ap (λ x. is_host_char x) (sym e) ∙ n))
      | inr other ↦ rw (other, host_chars-has c s n later)
    ]
  where
    true≢false : true ≡ false → ⊥
    true≢false e = cc

-- `.` or nothing, and `:` with a port or nothing.
abbrev pub port_text : Option Text → Text
port_text none = []
port_text (some p) = b':' ∷ p

abbrev pub dot_text : Bool → Text
dot_text true = codes "."
dot_text false = []

strip_port-port :
    (s : Text) (port : Option Text) → has b':' s ≡ false → strip_port (s ++ port_text port) ≡ s
unfolding strip_port
strip_port-port s none h = rw append-nil (rw (index_of_absent b':' s h, strip_port) refl)
strip_port-port s (some p) h =
    rw (index_of-append b':' s p h, strip_port) (take-append s (b':' ∷ p))

strip_dot-dot :
    (h : Text) (dot : Bool) → ends_with (codes ".") h ≡ false → strip_dot (h ++ dot_text dot) ≡ h
unfolding strip_dot
strip_dot-dot h true n = rw (ends_with-append (codes ".") h) (drop_last-append h (codes "."))
strip_dot-dot h false n = rw (append-nil, n) refl

no_bracket : (h t : Text) → all_of is_host_char h ≡ true → starts_with (codes "[") (h ++ t) ≡ false
unfolding starts_with
no_bracket [] t e = cc
no_bracket (a ∷ h) t e = ground arith

dot_clean : (dot : Bool) → has b':' (dot_text dot) ≡ false
dot_clean true = refl
dot_clean false = refl

pub normalize_name_lem :
    (s : Text)
    → normalize_name s ≡ (
        if starts_with (codes "[") s then normalize_v6 s else check_host (strip_dot (strip_port s)))
unfolding normalize_name
normalize_name_lem s = refl

module _ {h : Text} (v : IsName h) where
  pub name_chars : all is_host_char h ≡ true
  name_chars = (and-eq-true (nonempty h) (all is_host_char h) v.chars).1

  pub starts_with_bracket : (t : Text) → starts_with (codes "[") (h ++ t) ≡ false
  starts_with_bracket t = no_bracket h t v.chars

  check_host_name : check_host h ≡ some h
  unfolding check_host
  check_host_name = rw (v.chars, v.no_gap) refl

  no_colon : (dot : Bool) → has b':' (h ++ dot_text dot) ≡ false
  no_colon dot = rw (any-append, host_chars-has b':' h refl name_chars) (dot_clean dot)

  pub normalize_name-suffix :
      (dot : Bool) (port : Option Text)
      → normalize_name ((h ++ dot_text dot) ++ port_text port) ≡ some h
  normalize_name-suffix dot port =
      rw (normalize_name_lem, append_assoc, starts_with_bracket, ← append_assoc)
        (ap (λ s. check_host (strip_dot s))
            (strip_port-port (h ++ dot_text dot) port (no_colon dot))
          ∙ ap check_host (strip_dot-dot h dot v.no_dot)
          ∙ check_host_name)

pub strip_port_none : (s : Text) → has b':' s ≡ false → strip_port s ≡ s
unfolding strip_port
strip_port_none s h = rw (index_of_absent b':' s h, strip_port) refl
