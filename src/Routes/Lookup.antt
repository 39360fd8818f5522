-- ===== src/Routes/Lookup.antt =====
-- What find_handler gives after a route is added and after a merge.
use demiplane.Prelude.{
  ℕ, ◌≡◌, ◌∙◌, refl, sym, ap, ap₂, Bool, true, false, ◌&&◌, ◌==◌, ==_iff, Option, none, some, List,
  [], ◌∷◌, ◌++◌, Text, All, Bool-cases, inl, inr, if◌then◌else◌, arith,
}
use demiplane.Routes.{
  StdText, RouteInfo, RouteRegistry, is_parametric_path, make_route_key, first_of, find_exact,
  exact_result, merge, Params, route_pattern, route_info, create_parametric_route, add_route,
  try_route, find_parametric, find_handler,
}
use demiplane.Prelude.Texts.{same_text, same_text_refl, same_text_eq}

-- The decimal text of a number: no colon in it, and it tells the numbers apart.
pub record IsDecimal (std : StdText) : Type 0 where
  pub no_colon : (n : ℕ) → All (λ c. (c == b':') ≡ false) (std.to_string n)
  pub apart : (m n : ℕ) → std.to_string m ≡ std.to_string n → m ≡ n

same_text-append :
    (a b p q : Text)
    → All (λ c. (c == b':') ≡ false) a
    → All (λ c. (c == b':') ≡ false) b
    → same_text (a ++ b':' ∷ p) (b ++ b':' ∷ q) ≡ (same_text a b && same_text p q)
unfolding same_text
same_text-append [] [] p q ha hb = refl
same_text-append [] (y ∷ b) p q ha hb = ground (arith, hb.0)
same_text-append (x ∷ a) [] p q ha hb = ground (arith, ha.0)
same_text-append (x ∷ a) (y ∷ b) p q ha hb = ground (arith, same_text-append a b p q ha.1 hb.1)

module _ {ℓ} {X : Type ℓ} where
  if_true : (b : Bool) (x y : X) → b ≡ true → (if b then x else y) ≡ x
  if_true b x y e = rw e refl

  if_false : (b : Bool) (x y : X) → b ≡ false → (if b then x else y) ≡ y
  if_false b x y e = rw e refl

  first_of-none : (a : Option X) → first_of a none ≡ a
  first_of-none none = refl
  first_of-none (some x) = refl

  first_of-first_of : (a b c : Option X) → first_of (first_of a b) c ≡ first_of a (first_of b c)
  first_of-first_of none b c = refl
  first_of-first_of (some x) b c = refl

module _ (std : StdText) (d : IsDecimal std) where
  same_text-make_route_key :
      (m n : ℕ) (p q : Text)
      → same_text (make_route_key std m p) (make_route_key std n q) ≡ ((m == n) && same_text p q)
  unfolding make_route_key
  same_text-make_route_key m n p q =
      same_text-append (std.to_string m) (std.to_string n) p q (d.no_colon m) (d.no_colon n)
      ∙ ap (λ (b : Bool). b && same_text p q) same_number
    where
      same_number : same_text (std.to_string m) (std.to_string n) ≡ (m == n)
      same_number = elim (Bool-cases (m == n)) [
        | inl e ↦ rw e (rw ((==_iff m n).0 e) (same_text_refl (std.to_string n)))
        | inr e ↦ elim (Bool-cases (same_text (std.to_string m) (std.to_string n))) [
          | inl t ↦ absurd (ground (arith, d.apart m n (same_text_eq _ _ t), e))
          | inr t ↦ t ∙ sym e
        ]
      ]

  module _ {ℓ} {H : Type ℓ} where
    find_exact-append :
        (key : Text) (l r : List (Text × H))
        → find_exact key (l ++ r) ≡ first_of (find_exact key l) (find_exact key r)
    unfolding find_exact
    find_exact-append key [] r = refl
    find_exact-append key ((k, h) ∷ l) r = elim (Bool-cases (same_text k key)) [
      | inl e ↦ rw e refl
      | inr e ↦ rw e (find_exact-append key l r)
    ]

    find_parametric-append :
        (m : ℕ) (p : Text) (l r : List (RouteInfo H))
        → find_parametric std m p (l ++ r)
          ≡ first_of (find_parametric std m p l) (find_parametric std m p r)
    unfolding find_parametric
    find_parametric-append m p [] r = refl
    find_parametric-append m p (e ∷ l) r =
        ap (first_of (try_route std m p e)) (find_parametric-append m p l r)
        ∙ sym (
            first_of-first_of (try_route std m p e) (find_parametric std m p l)
              (find_parametric std m p r))

    exact_result-first_of :
        (a b : Option H) → exact_result (first_of a b) ≡ first_of (exact_result a) (exact_result b)
    exact_result-first_of none b = refl
    exact_result-first_of (some h) b = refl

    -- A request after a call of add_route; `none` where that throws.
    abbrev pub find_after : ℕ → Text → Option (RouteRegistry H) → Option (Option (H × Params))
    find_after n q none = none
    find_after n q (some r) = some (find_handler std n q r)

    -- A path without a brace is bound exactly.
    find_handler-add_exact :
        (m : ℕ) (p : Text) (h : H) (r : RouteRegistry H)
        → is_parametric_path p ≡ false
        → (n : ℕ) (q : Text)
        → find_after n q (add_route std m p h r)
          ≡ some (if (m == n) && same_text p q then some (h, []) else find_handler std n q r)
    unfolding find_handler add_route find_exact
    find_handler-add_exact m p h r plain n q =
        rw plain (elim (Bool-cases ((m == n) && same_text p q)) [
          | inl e ↦ rw (same_text-make_route_key m n p q, e) refl
          | inr e ↦ rw (same_text-make_route_key m n p q, e) refl
        ])

    -- A route that is pushed goes behind all the others.
    find_handler-push_back :
        (route : RouteInfo H) (r : RouteRegistry H) (n : ℕ) (q : Text)
        → find_handler std n q (record r { parametric_routes = r.parametric_routes ++ route ∷ [] })
          ≡ first_of (find_handler std n q r) (try_route std n q route)
    unfolding find_handler find_parametric
    find_handler-push_back route r n q =
        rw
          (
            find_parametric-append n q r.parametric_routes (route ∷ []),
            first_of-none (try_route std n q route),
          )
          (sym (
            first_of-first_of (exact_result (find_exact (make_route_key std n q) r.exact_routes))
              (find_parametric std n q r.parametric_routes) (try_route std n q route)))

    -- A path with a brace, where its pattern is a regex.
    find_handler-add_parametric :
        (m : ℕ) (p : Text) (h : H) (r : RouteRegistry H)
        → is_parametric_path p ≡ true
        → (n : ℕ) (q : Text)
        → find_after n q (add_route std m p h r) ≡ (
            if std.is_regex (route_pattern std p)
            then some (first_of (find_handler std n q r) (try_route std n q (route_info std m p h)))
            else none)
    unfolding add_route create_parametric_route
    find_handler-add_parametric m p h r braced n q =
        rw braced (elim (Bool-cases (std.is_regex (route_pattern std p))) [
          | inl e ↦ rw e (ap some (find_handler-push_back (route_info std m p h) r n q))
          | inr e ↦ rw e refl
        ])

    -- After a merge the exact routes of both are tried, the other registry's first, then the
    -- parametric ones of both, the registry's own first.
    find_handler-merge :
        (r other : RouteRegistry H) (n : ℕ) (q : Text)
        → find_handler std n q (merge other r)
          ≡ first_of
              (first_of
                (exact_result (find_exact (make_route_key std n q) other.exact_routes))
                (exact_result (find_exact (make_route_key std n q) r.exact_routes)))
              (first_of
                (find_parametric std n q r.parametric_routes)
                (find_parametric std n q other.parametric_routes))
    unfolding find_handler merge
    find_handler-merge r other n q =
        ap₂ first_of
          (ap exact_result
              (find_exact-append (make_route_key std n q) other.exact_routes r.exact_routes)
            ∙ exact_result-first_of _ _)
          (find_parametric-append n q r.parametric_routes other.parametric_routes)

    -- What find_handler gives after add_route and after merge. A route without a brace in its path is
    -- found for its verb and path, in place of any other, and changes no other request. One with a
    -- brace is tried after all that was there if the pattern made of its path is a regex, and add_route
    -- throws if it is not. After a merge the exact routes of the other registry come before the
    -- registry's own, and its parametric ones after the registry's own. The decimal text of a verb has
    -- no colon and tells the verbs apart.
    pub find_handler-add_route-merge :
        (r other : RouteRegistry H) (m : ℕ) (p : Text) (h : H) (n : ℕ) (q : Text)
        → (find_after n q (add_route std m p h r) ≡ (
            if is_parametric_path p
            then (if std.is_regex (route_pattern std p)
                then some
                    (first_of (find_handler std n q r) (try_route std n q (route_info std m p h)))
                else none)
            else some (if (m == n) && same_text p q then some (h, []) else find_handler std n q r)))
          × (find_handler std n q (merge other r)
              ≡ first_of
                  (first_of
                    (exact_result (find_exact (make_route_key std n q) other.exact_routes))
                    (exact_result (find_exact (make_route_key std n q) r.exact_routes)))
                  (first_of
                    (find_parametric std n q r.parametric_routes)
                    (find_parametric std n q other.parametric_routes)))
    find_handler-add_route-merge r other m p h n q = (
      elim (Bool-cases (is_parametric_path p)) [
        | inl e ↦ find_handler-add_parametric m p h r e n q ∙ sym (if_true _ _ _ e)
        | inr e ↦ find_handler-add_exact m p h r e n q ∙ sym (if_false _ _ _ e)
      ],
      find_handler-merge r other n q,
    )
