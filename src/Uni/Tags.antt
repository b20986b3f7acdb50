-- ===== src/Uni/Tags.antt =====
-- The tags that the services of successive UNIs get (internal/bbsim/devices/uni_port.go, NewUniPort).
use Prim.Native.String.{String}
use text.Mathlib.Text.{◌==◌ as str_eq}
use text.Mathlib.TextEquality.{eq_iff}
use g_simulator.Prelude.{
  ℕ, ◌+◌, ◌<◌, ◌≡◌, refl, sym, subst, Bool, true, false, List, [], ◌∷◌, ◌++◌, Option, none, some,
  All, ltb, if◌then◌else◌, arith,
}
use g_simulator.Prelude.Map
use g_simulator.Prelude.Map.{lookup-insert}
use g_simulator.Go.{Result, ok, ◌>>=◌, Ensures, Ensures-bind, Ensures-any, Ensures-if}
use g_simulator.Dhcp.{service_mac}
use g_simulator.Service.{Service}
use g_simulator.Uni.{UniPort}
use g_simulator.Uni.Create.{
  string_eq, ServiceYaml, Tags, new_service, next_tag, new_services, new_uni_port,
}

-- The customer tags of the services of this name, in order.
abbrev pub c_tags_of : String → List Service → List ℕ
c_tags_of name [] = []
c_tags_of name (s ∷ rest) =
    let others = c_tags_of name rest in if str_eq s.name name then s.c_tag ∷ others else others

-- Strictly growing, all above `bound`.
abbrev pub Grows : Option ℕ → List ℕ → Type 0
Grows bound [] = Unit
Grows none (t ∷ ts) = Grows (some t) ts
Grows (some b) (t ∷ ts) = (b < t) × Grows (some t) ts

-- The last of the tags, or what was before.
abbrev pub last_of : Option ℕ → List ℕ → Option ℕ
last_of before [] = before
last_of before (t ∷ ts) = last_of (some t) ts

-- All entries of this name ask for tags of their own.
abbrev pub AskUnique : String → ServiceYaml → Type 0
AskUnique name s = s.name ≡ name → s.c_tag_allocation ≡ "unique"

-- A granted tag is above the one before, if the service asks for a tag of its own.
abbrev Granted : ServiceYaml → Option ℕ → ℕ → Type 0
Granted s none c = Unit
Granted s (some b) c = s.c_tag_allocation ≡ "unique" → b < c

next_tag-Granted :
    (s : ServiceYaml) (before : Option ℕ)
    → Ensures (Granted s before) (next_tag s.c_tag_allocation s.c_tag before)
unfolding next_tag
next_tag-Granted s none = tt
next_tag-Granted s (some b) = ground (arith, eq_iff s.c_tag_allocation "unique")

abbrev Above : Option ℕ → ℕ → Type 0
Above none c = Unit
Above (some b) c = b < c

Granted-Above :
    (s : ServiceYaml) (o : Option ℕ) (c : ℕ)
    → s.c_tag_allocation ≡ "unique"
    → Granted s o c
    → Above o c
Granted-Above s none c u g = tt
Granted-Above s (some b) c u g = g u

above :
    (s : ServiceYaml) (name : String) (c_tags : Tags) (c : ℕ)
    → s.name ≡ name
    → AskUnique name s
    → Granted s (Map.lookup s.name c_tags) c
    → Above (Map.lookup name c_tags) c
above s name c_tags c same u g =
    subst (λ n. Above (Map.lookup n c_tags) c) same
      (Granted-Above s (Map.lookup s.name c_tags) c (u same) g)

combine :
    (same : Bool) (before : Option ℕ) (c : ℕ) (ts : List ℕ) (last : Option ℕ)
    → (same ≡ true → Above before c)
    → Grows (if same then some c else before) ts
      × (last ≡ last_of (if same then some c else before) ts)
    → Grows before (if same then c ∷ ts else ts)
      × (last ≡ last_of before (if same then c ∷ ts else ts))
combine true none c ts last a (g, l) = (g, l)
combine true (some b) c ts last a (g, l) = ((a refl, g), l)
combine false before c ts last a i = i

new_services-Grows :
    (mac_of : ℕ → List ℕ) (name : String) (configured : List ServiceYaml) (k : ℕ)
    (c_tags s_tags : Tags)
    → All (AskUnique name) configured
    → Ensures
        (λ (x : List Service × Tags × Tags).
          Grows (Map.lookup name c_tags) (c_tags_of name x.0)
          × (Map.lookup name x.1 ≡ last_of (Map.lookup name c_tags) (c_tags_of name x.0)))
        (new_services mac_of k configured c_tags s_tags)
unfolding new_services new_service
new_services-Grows mac_of name [] k c_tags s_tags h = (tt, refl)
new_services-Grows mac_of name (s ∷ rest) k c_tags s_tags h =
    Ensures-bind (Granted s (Map.lookup s.name c_tags)) _
      (next_tag s.c_tag_allocation s.c_tag (Map.lookup s.name c_tags)) _
      (next_tag-Granted s (Map.lookup s.name c_tags))
      λ c g.
        Ensures-bind (λ t. Unit {0}) _
          (next_tag s.s_tag_allocation s.s_tag (Map.lookup s.name s_tags)) _ (Ensures-any _)
          λ t _.
            Ensures-bind _ _
              (new_services mac_of (k + 1) rest (Map.insert s.name c c_tags)
                (Map.insert s.name t s_tags))
              _
              (new_services-Grows mac_of name rest (k + 1) (Map.insert s.name c c_tags)
                (Map.insert s.name t s_tags) h.1)
              λ (services, c', t') i.
                combine (str_eq s.name name) (Map.lookup name c_tags) c (c_tags_of name services)
                  (Map.lookup name c')
                  (λ same. above s name c_tags c ((eq_iff s.name name).0 same) h.0 g)
                  (subst
                    (λ o.
                      Grows o (c_tags_of name services)
                      × (Map.lookup name c' ≡ last_of o (c_tags_of name services)))
                    (lookup-insert s.name name c c_tags) i)

abbrev pub services_of : Option UniPort → List Service
services_of none = []
services_of (some u) = u.services

-- UNIs created one after the other, as for the ONUs of an OLT: the number, the PON port and the ONU of
-- each; their services, in order.
abbrev pub create_all :
    ℕ → List ServiceYaml → List (ℕ × ℕ × ℕ) → Tags → Tags → Result (List Service)
create_all olt_id configured [] c_tags s_tags = ok []
create_all olt_id configured ((id, pon, onu) ∷ rest) c_tags s_tags = do
  (made, c_tags', s_tags') ← new_uni_port id olt_id pon onu configured c_tags s_tags
  services ← create_all olt_id configured rest c_tags' s_tags'
  ok (services_of made ++ services)

Grows-append :
    (b : Option ℕ) (xs ys : List ℕ) → Grows b xs → Grows (last_of b xs) ys → Grows b (xs ++ ys)
Grows-append b [] ys g h = h
Grows-append none (x ∷ xs) ys g h = Grows-append (some x) xs ys g h
Grows-append (some b) (x ∷ xs) ys g h = (g.0, Grows-append (some x) xs ys g.1 h)

c_tags_of-append :
    (name : String) (xs ys : List Service)
    → c_tags_of name (xs ++ ys) ≡ c_tags_of name xs ++ c_tags_of name ys
c_tags_of-append name [] ys = refl
c_tags_of-append name (x ∷ xs) ys = ground (arith, c_tags_of-append name xs ys)

module _ (olt_id : ℕ) (name : String) (configured : List ServiceYaml)
    (unique : All (AskUnique name) configured) where
  new_uni_port-Grows :
      (id pon onu : ℕ) (c_tags s_tags : Tags)
      → Ensures
          (λ (x : Option UniPort × Tags × Tags).
            Grows (Map.lookup name c_tags) (c_tags_of name (services_of x.0))
            × (Map.lookup name x.1
                ≡ last_of (Map.lookup name c_tags) (c_tags_of name (services_of x.0))))
          (new_uni_port id olt_id pon onu configured c_tags s_tags)
  unfolding new_uni_port
  new_uni_port-Grows id pon onu c_tags s_tags =
      Ensures-if _ (ltb 3 id) _ _ (λ _. (tt, refl))
        (λ _.
          Ensures-bind _ _
            (new_services (λ k. service_mac olt_id pon onu id k) 0 configured c_tags s_tags) _
            (new_services-Grows (λ k. service_mac olt_id pon onu id k) name configured 0 c_tags
              s_tags unique)
            λ (services, c', t') g. g)

  -- If every configured service of a name asks for unique customer tags, then the customer tags that the
  -- services of this name get, over all UNIs created one after the other from the same maps, are
  -- strictly growing, and above the last one that the map held: no two of them are the same. This holds of
  -- every creation that does not end the program for want of tags.
  pub create_all-Grows :
      (ports : List (ℕ × ℕ × ℕ)) (c_tags s_tags : Tags)
      → Ensures
          (λ services. Grows (Map.lookup name c_tags) (c_tags_of name services))
          (create_all olt_id configured ports c_tags s_tags)
  create_all-Grows [] c_tags s_tags = tt
  create_all-Grows ((id, pon, onu) ∷ rest) c_tags s_tags =
      Ensures-bind _ _ (new_uni_port id olt_id pon onu configured c_tags s_tags) _
        (new_uni_port-Grows id pon onu c_tags s_tags)
        λ (made, c', t') g.
          Ensures-bind _ _ (create_all olt_id configured rest c' t') _ (create_all-Grows rest c' t')
            λ services h.
              subst (Grows (Map.lookup name c_tags))
                (sym (c_tags_of-append name (services_of made) services))
                (Grows-append _ (c_tags_of name (services_of made)) (c_tags_of name services) g.0
                  (subst (λ o. Grows o (c_tags_of name services)) g.1 h))
