-- ===== src/Invitations/Reach.antt =====
-- What `accountReach` of packages/infra/src/invitations.ts, with the test of it in the accept route
-- of apps/api/src/routes/invitations.ts, says of the memberships themselves.
use chatbot_integration.Prelude.{
  ◌≡◌, refl, ap, String, Bool, true, false, ◌&&◌, ◌||◌, List, [], ◌∷◌, all, any, map, keep, arith,
  not, inl, inr, Bool-cases, str_eq, eq_iff, length,
}
use chatbot_integration.Invitations.{Membership, Invitation, account_reach, distinct}
use chatbot_integration.Invitations.Accept.{is_covered}

all-any :
    (p : String → Bool) (x : String) (ys : List String)
    → any (str_eq x) ys ≡ true
    → all p ys ≡ true
    → p x ≡ true
all-any p x [] h k = ground arith
all-any p x (y ∷ ys) h k = elim (Bool-cases (str_eq x y)) [
  | inl e ↦ rw (ap p ((eq_iff x y).0 e)) (ground arith)
  | inr e ↦ all-any p x ys (ground arith) (ground arith)
]

all-distinct : (p : String → Bool) (xs : List String) → all p (distinct xs) ≡ true → all p xs ≡ true
unfolding distinct
all-distinct p [] h = refl
all-distinct p (x ∷ xs) h = elim (Bool-cases (any (str_eq x) (distinct xs))) [
  | inl e ↦
      let rest : all p (distinct xs) ≡ true = ground arith in
      ground (arith, all-any p x (distinct xs) e rest, all-distinct p xs rest)
  | inr e ↦ ground (arith, all-distinct p xs)
]

any-distinct : (p : String → Bool) (xs : List String) → any p (distinct xs) ≡ true → any p xs ≡ true
unfolding distinct
any-distinct p [] h = h
any-distinct p (x ∷ xs) h = ground (arith, any-distinct p xs)

all-keep {ℓ} :
    {A : Type ℓ}
    → (p q : A → Bool) (xs : List A) → all p (keep q xs) ≡ true
    → all (λ x. not (q x) || p x) xs ≡ true
all-keep p q [] h = refl
all-keep p q (x ∷ xs) h = ground (arith, all-keep p q xs)

any-keep {ℓ} :
    {A : Type ℓ}
    → (p q : A → Bool) (xs : List A) → any p (keep q xs) ≡ true
    → any (λ x. q x && p x) xs ≡ true
any-keep p q [] h = h
any-keep p q (x ∷ xs) h = ground (arith, any-keep p q xs)

all-map {ℓ} :
    {A : Type ℓ}
    → (p : String → Bool) (f : A → String) (xs : List A) → all p (map f xs) ≡ true
    → all (λ x. p (f x)) xs ≡ true
all-map p f [] h = refl
all-map p f (x ∷ xs) h = ground (arith, all-map p f xs)

any-map {ℓ} :
    {A : Type ℓ}
    → (p : String → Bool) (f : A → String) (xs : List A) → any p (map f xs) ≡ true
    → any (λ x. p (f x)) xs ≡ true
any-map p f [] h = h
any-map p f (x ∷ xs) h = ground (arith, any-map p f xs)

all-all {ℓ} :
    {A : Type ℓ}
    → (p q : A → Bool) → ((x : A) → p x ≡ true → q x ≡ true)
    → (xs : List A) → all p xs ≡ true
    → all q xs ≡ true
all-all p q f [] h = refl
all-all p q f (x ∷ xs) h = ground (arith, f x, all-all p q f xs)

any-any {ℓ} :
    {A : Type ℓ}
    → (p q : A → Bool) → ((x : A) → p x ≡ true → q x ≡ true)
    → (xs : List A) → any p xs ≡ true
    → any q xs ≡ true
any-any p q f [] h = h
any-any p q f (x ∷ xs) h = ground (arith, f x, any-any p q f xs)

-- A membership of somebody else, of no workspace, or of this one.
abbrev pub stays_within : (user workspace_id : String) → Membership → Bool
stays_within user workspace_id m =
    not (str_eq m.user_id user)
    || (str_eq m.organization_id "" || str_eq m.organization_id workspace_id)

abbrev pub is_member_of : (user workspace_id : String) → Membership → Bool
is_member_of user workspace_id m = str_eq m.user_id user && str_eq m.organization_id workspace_id

lone :
    (workspace_ids : List String) (invitation : Invitation) (platform_admin : Bool)
    → is_covered invitation (record {
      memberships = length workspace_ids;
      platform_admin = platform_admin;
      workspace_ids = workspace_ids;
    })
      ≡ true
    → (all (λ w. str_eq w invitation.workspace_id) workspace_ids ≡ true)
      × (any (λ w. str_eq w invitation.workspace_id) workspace_ids ≡ true)
      × (platform_admin ≡ false)
unfolding is_covered
lone [] invitation platform_admin h = absurd (ground arith)
lone (w ∷ []) invitation platform_admin h = ground arith
lone (w ∷ w' ∷ ws) invitation platform_admin h = absurd (ground arith)

pub is_covered-lone :
    (invitation : Invitation) (members : List Membership) (platform_admins : List String)
    (user : String)
    → is_covered invitation (account_reach members platform_admins user) ≡ true
    → (all (stays_within user invitation.workspace_id) members ≡ true)
      × (any (is_member_of user invitation.workspace_id) members ≡ true)
      × (any (str_eq user) platform_admins ≡ false)
unfolding account_reach
is_covered-lone invitation members platform_admins user h =
    let ws = invitation.workspace_id in
    let mine = keep (λ (m : Membership). str_eq m.user_id user) members in
    let all_ids = map (λ (m : Membership). m.organization_id) mine in
    let named : String → Bool = λ w. not (str_eq w "") in
    let here : String → Bool = λ w. str_eq w ws in
    let (only, some_here, no_admin) =
      lone (keep named (distinct all_ids)) invitation (any (str_eq user) platform_admins) h in
    (
      all-all
          (λ m.
            not (str_eq m.user_id user)
            || (not (named m.organization_id) || here m.organization_id))
          (stays_within user ws) (λ m k. ground arith) members
          (all-keep (λ m. not (named m.organization_id) || here m.organization_id)
            (λ m. str_eq m.user_id user) members
            (all-map (λ w. not (named w) || here w) (λ m. m.organization_id) mine
              (all-distinct (λ w. not (named w) || here w) all_ids
                (all-keep here named (distinct all_ids) only)))),
      any-any (λ m. str_eq m.user_id user && (named m.organization_id && here m.organization_id))
          (is_member_of user ws) (λ m k. ground arith) members
          (any-keep (λ m. named m.organization_id && here m.organization_id)
            (λ m. str_eq m.user_id user) members
            (any-map (λ w. named w && here w) (λ m. m.organization_id) mine
              (any-distinct (λ w. named w && here w) all_ids
                (any-keep here named (distinct all_ids) some_here)))),
      no_admin,
    )
