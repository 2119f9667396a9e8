-- ===== src/Admin/Pages.antt =====
-- What the pages of a group yield.
use himmelcloak.Prelude.{
  ℕ, zero, suc, ◌+◌, ◌≤◌, ◌<◌, Text, contains, contains_complete, chars, trim, length,
  length-append, null, map, List, [], ◌∷◌, ◌++◌, Option, Bool, true, false, ◌==◌, leb, ◌&&◌,
  if◌then◌else◌, Error, ok, err, and_then-eq_ok, ok-injective, ok_or, ensure, Run, WhenOk,
  WhenOk-resume, WhenOk-if, resume-same, Bool-cases, inl, inr, All, Distinct, Memᴰ, ◌≡◌, ◌≢◌, refl,
  sym, ap, arith,
}
use mathlib.Core.Path.{subst}
use himmelcloak.Platform.{UrlLib}
use himmelcloak.Transport.{Machine, Response}
use himmelcloak.Config.{Config}
use himmelcloak.Token.Claims.Checked.{ensure-ok}
use himmelcloak.Token.Discover.{Codec}
use himmelcloak.Flow.Types.{Tokens}
use himmelcloak.Admin.{
  GroupMember, max_members, page_size, acceptable, add_page, page_of, page_request, pages, validate,
  endpoint, service_token, all_pages, read_with_transport,
}

ids : List GroupMember → List Text
ids members = map (λ (m : GroupMember). m.id) members

-- A member with an identifier and a name that is not blank.
abbrev pub IsNamed : GroupMember → Type 0
IsNamed m = (null m.id ≡ false) × (null (trim (chars m.username)) ≡ false)

-- Named members, no two with the same identifier, within the limit.
pub record IsRoll (members : List GroupMember) : Type 0 where
  pub named : All IsNamed members
  pub distinct : Distinct (map (λ (m : GroupMember). m.id) members)
  pub bounded : length members ≤ max_members

all-snoc :
    {A : Type 0} (P : A → Type 0) (xs : List A) (x : A) → All P xs → P x → All P (xs ++ x ∷ [])
all-snoc P [] x h p = (p, tt)
all-snoc P (y ∷ xs) x (a, h) p = (a, all-snoc P xs x h p)

map-snoc :
    (members : List GroupMember) (m : GroupMember)
    → map (λ (n : GroupMember). n.id) (members ++ m ∷ [])
      ≡ map (λ (n : GroupMember). n.id) members ++ m.id ∷ []
map-snoc [] m = refl
map-snoc (n ∷ members) m = ap (λ (l : List Text). n.id ∷ l) (map-snoc members m)

Distinct-snoc :
    (xs : List Text) (x : Text)
    → Distinct xs
    → ((y : Text) → Memᴰ y xs → y ≢ x)
    → Distinct (xs ++ x ∷ [])
Distinct-snoc [] x h n = (tt, tt)
Distinct-snoc (y ∷ xs) x (a, h) n = (
  all-snoc (λ z. y ≢ z) xs x a (n y (Memᴰ.head refl)),
  Distinct-snoc xs x h λ z m. n z (Memᴰ.tail m),
)

acceptable-new :
    (members : List GroupMember) (m : GroupMember)
    → acceptable members m ≡ true
    → IsNamed m × (contains (map (λ (n : GroupMember). n.id) members) m.id ≡ false)
unfolding acceptable
acceptable-new members m h = ground arith

add_page-IsRoll :
    (members page : List GroupMember) {result : List GroupMember}
    → All IsNamed members
    → Distinct (map (λ (n : GroupMember). n.id) members)
    → add_page members page ≡ ok result
    → All IsNamed result
      × Distinct (map (λ (n : GroupMember). n.id) result)
      × (length result ≡ length members + length page)
unfolding add_page
add_page-IsRoll members [] {result} a d h =
    let same : members ≡ result = ok-injective h in
    subst
      (λ r.
        All IsNamed r
        × Distinct (map (λ (n : GroupMember). n.id) r)
        × (length r ≡ length members + 0))
      same (a, d, omega arith)
add_page-IsRoll members (m ∷ page) {result} a d h = elim (Bool-cases (acceptable members m)) [
  | inr e ↦ absurd (ground arith)
  | inl e ↦
      (let (named, fresh) = acceptable-new members m e in
        let d' = subst Distinct (sym (map-snoc members m)) (
          Distinct-snoc (map (λ (n : GroupMember). n.id) members) m.id d λ y mem same.
            (let c =
                contains_complete
                  (subst (λ z. Memᴰ z (map (λ (n : GroupMember). n.id) members)) same mem) in
              absurd (ground arith))) in
        let (x, y, z) =
          add_page-IsRoll (members ++ m ∷ []) page {result = result}
            (all-snoc IsNamed members m a named) d' (rw e at h) in
        (x, y, omega (arith, z, length-append members (m ∷ []))))
]

length-add_page :
    (members page : List GroupMember) {result : List GroupMember}
    → add_page members page ≡ ok result
    → length result ≡ length members + length page
unfolding add_page
length-add_page members [] {result} h = ground arith
length-add_page members (m ∷ page) {result} h = ground (
  arith,
  length-add_page (members ++ m ∷ []) page {result = result},
  length-append members (m ∷ []),
)

nonempty_length : {A : Type 0} (xs : List A) → null xs ≡ false → 0 < length xs
nonempty_length [] h = absurd (ground arith)
nonempty_length (x ∷ xs) h = omega arith

module _ (read_page : Text → Option (List GroupMember)) where
  page_of-bounded :
      (members : List GroupMember) (response : Response) {page : List GroupMember}
      → page_of read_page members response ≡ ok page
      → (length page ≤ page_size) × (length members + length page ≤ max_members)
  unfolding page_of
  page_of-bounded members response {page} h =
      let (_, a, h1) = and_then-eq_ok (ensure (response.status == 200) _) _ h in
      let (p, b, h2) = and_then-eq_ok (ok_or (read_page response.body) _) _ h1 in
      let (_, c, h3) =
        and_then-eq_ok
          (ensure (leb (length p) page_size && leb (length members + length p) max_members) _) _
          h2 in
      let both = ensure-ok _ _ c in
      subst (λ q. (length q ≤ page_size) × (length members + length q ≤ max_members))
        (ok-injective h3) (ground arith)

  module _ {L : UrlLib} (M : Machine L) (base : L.Url) (access_token : Text) where
    pages-IsRoll :
        (fuel : ℕ) (members : List GroupMember) (w : M.World)
        → IsRoll members
        → WhenOk
            (λ result (w' : M.World). IsRoll result)
            (pages read_page M base access_token fuel members w)
    unfolding pages
    pages-IsRoll zero members w roll = tt
    pages-IsRoll (suc fuel) members w roll =
        let P : List GroupMember → M.World → Type 0 = λ result w'. IsRoll result in
        let (r, w1) = M.send (page_request base access_token (length members)) w in
        WhenOk-resume P r _ w1 λ response _.
          WhenOk-resume P (page_of read_page members response) _ w1 λ page e.
            WhenOk-if P (null page) _ _ w1 (λ _. roll)
              λ _. WhenOk-resume P (add_page members page) _ w1 λ members' e'.
                (let (a, d, n) =
                    add_page-IsRoll members page {result = members'} roll.named roll.distinct e' in
                  let (_, b) = page_of-bounded members response e in
                  pages-IsRoll fuel members' w1
                    (record { named = a; distinct = d; bounded = omega arith }))

    -- The loop over the pages ends: a page that is not the last brings at least one member, so that any bound
    -- on the rounds above what the limit leaves gives the same outcome.
    pub pages-fuel :
        (f g : ℕ) (members : List GroupMember) (w : M.World)
        → length members ≤ max_members
        → max_members < f + length members
        → max_members < g + length members
        → pages read_page M base access_token f members w
          ≡ pages read_page M base access_token g members w
    unfolding pages
    pages-fuel zero g members w b p q = absurd (omega arith)
    pages-fuel (suc f) zero members w b p q = absurd (omega arith)
    pages-fuel (suc f) (suc g) members w b p q =
        let (r, w1) = M.send (page_request base access_token (length members)) w in
        resume-same r _ _ w1 λ response _.
          resume-same (page_of read_page members response) _ _ w1 λ page e.
            (let (_, c) = page_of-bounded members response e in
              if_same (null page) _ _ _ w1 λ full.
                resume-same (add_page members page) _ _ w1 λ members' e'.
                  (let n = length-add_page members page {result = members'} e' in
                    let some_page = nonempty_length page full in
                    pages-fuel f g members' w1 (omega arith) (omega arith) (omega arith)))
      where
        if_same :
            {S A : Type 0} (b : Bool) (x m k : Run S A) (s : S)
            → (b ≡ false → m s ≡ k s)
            → (if b then x else m) s ≡ (if b then x else k) s
        if_same true x m k s h = refl
        if_same false x m k s h = h refl

module _ (read_page : Text → Option (List GroupMember)) {L : UrlLib} (M : Machine L)
    (K : Codec) where
  all_pages-IsRoll :
      (config : Config L) (group_id : Text) (tokens : Tokens) (w : M.World)
      → WhenOk
          (λ result (w' : M.World). IsRoll result)
          (all_pages read_page M K config group_id tokens w)
  unfolding all_pages
  all_pages-IsRoll config group_id tokens w =
      WhenOk-resume (λ result (w' : M.World). IsRoll result) (endpoint config _) _ w
        λ base _.
          pages-IsRoll read_page M base tokens.access_token (suc max_members) [] w
            (record { named = tt; distinct = tt; bounded = omega arith })

  -- What is read of a group is a roll: at most 100,000 members, all with an identifier and a name, no two with the same
  -- identifier.
  pub read_with_transport-IsRoll :
      (config : Config L) (group_id secret : Text) (w : M.World)
      → WhenOk
          (λ result (w' : M.World). IsRoll result)
          (read_with_transport read_page M K config group_id secret w)
  unfolding read_with_transport
  read_with_transport-IsRoll config group_id secret w =
      let P : List GroupMember → M.World → Type 0 = λ result w'. IsRoll result in
      WhenOk-resume P (validate config group_id secret) _ w λ _ _.
        (let (r, w1) = service_token read_page M K config secret w in
          WhenOk-resume P r _ w1 λ tokens _. all_pages-IsRoll config group_id tokens w1)

  -- Settings, a group or a secret that are not valid are refused before anything is sent.
  pub read_with_transport-refused :
      (config : Config L) (group_id secret : Text) (w : M.World) {e : Error}
      → validate config group_id secret ≡ err e
      → read_with_transport read_page M K config group_id secret w ≡ (err e, w)
  unfolding read_with_transport
  read_with_transport-refused config group_id secret w h = rw h refl
