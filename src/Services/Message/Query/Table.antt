-- ===== src/Services/Message/Query/Table.antt =====
-- A table that answers FindByGuild by sorting, which shows that the documented behaviour can hold.
use mathlib.Core.Path.{subst}
use chat_room.Prelude.{
  zero, suc, ◌≤◌, ◌≡◌, ◌⊎◌, refl, sym, inl, inr, String, List, [], ◌∷◌, take, Result, ok, none, All,
  if◌then◌else◌, Bool, true, false, ◌&&◌, str_eq, eq_iff, ltb, leb, arith, Bool-cases,
}
use chat_room.Prelude.Int.{ℤ, pos, negsuc}
use chat_room.Services.Message.{MessageModel, IMessageRepository}
use chat_room.Services.Message.Query.{IsPast, Before, Ordered, Mem, occurrences, Documented}

unfoldable pub is_past : ℤ → MessageModel → Bool
is_past (pos zero) m = true
is_past (pos (suc n)) m = ltb (suc n) m.seq_id
is_past (negsuc n) m = true

unfoldable pub comes : ℤ → MessageModel → MessageModel → Bool
comes (pos zero) m k = leb k.seq_id m.seq_id
comes (pos (suc n)) m k = leb m.seq_id k.seq_id
comes (negsuc n) m k = leb k.seq_id m.seq_id

unfoldable pub insert_row : ℤ → MessageModel → List MessageModel → List MessageModel
insert_row last m [] = m ∷ []
insert_row last m (k ∷ ks) =
    let rest = insert_row last m ks in if comes last m k then m ∷ k ∷ ks else k ∷ rest

unfoldable pub select : String → ℤ → List MessageModel → List MessageModel
select g last [] = []
select g last (m ∷ ms) =
    let rest = select g last ms in
    if str_eq m.guild_id g && is_past last m then insert_row last m rest else rest

unfoldable pub table : {E : Type 0} → IMessageRepository (List MessageModel) E
table = record {
  create = λ d m. (ok tt, m ∷ d);
  find_by_guild = λ d g last n. ok (take n (select g last d));
  find_by_id = λ d id. ok none;
}

is_past_iff : (last : ℤ) (m : MessageModel) → is_past last m ≡ true → IsPast last m
unfolding is_past
is_past_iff (pos zero) m h = tt
is_past_iff (pos (suc n)) m h = ground arith
is_past_iff (negsuc n) m h = tt

past_is : (last : ℤ) (m : MessageModel) → IsPast last m → is_past last m ≡ true
unfolding is_past
past_is (pos zero) m h = refl
past_is (pos (suc n)) m h = ground arith
past_is (negsuc n) m h = refl

comes-Before : (last : ℤ) (m k : MessageModel) → comes last m k ≡ true → Before last m k
unfolding comes
comes-Before (pos zero) m k h = ground arith
comes-Before (pos (suc n)) m k h = ground arith
comes-Before (negsuc n) m k h = ground arith

later-Before : (last : ℤ) (m k : MessageModel) → comes last m k ≡ false → Before last k m
unfolding comes
later-Before (pos zero) m k h = ground arith
later-Before (pos (suc n)) m k h = ground arith
later-Before (negsuc n) m k h = ground arith

Before-trans :
    (last : ℤ) (a b c : MessageModel) → Before last a b → Before last b c → Before last a c
Before-trans (pos zero) a b c h k = omega arith
Before-trans (pos (suc n)) a b c h k = omega arith
Before-trans (negsuc n) a b c h k = omega arith

All-Before :
    (last : ℤ) (a b : MessageModel) (ms : List MessageModel)
    → Before last a b
    → All (Before last b) ms
    → All (Before last a) ms
All-Before last a b [] h all = tt
All-Before last a b (m ∷ ms) h all =
    (Before-trans last a b m h all.0, All-Before last a b ms h all.1)

All-insert_row :
    (last : ℤ) (a m : MessageModel) (ks : List MessageModel)
    → Before last a m
    → All (Before last a) ks
    → All (Before last a) (insert_row last m ks)
unfolding insert_row
All-insert_row last a m [] h all = (h, tt)
All-insert_row last a m (k ∷ ks) h all = elim (Bool-cases (comes last m k)) [
  | inl e ↦ rw e (h, all)
  | inr e ↦ rw e (all.0, All-insert_row last a m ks h all.1)
]

insert_row-Ordered :
    (last : ℤ) (m : MessageModel) (ks : List MessageModel)
    → Ordered last ks
    → Ordered last (insert_row last m ks)
unfolding insert_row
insert_row-Ordered last m [] o = (tt, tt)
insert_row-Ordered last m (k ∷ ks) o = elim (Bool-cases (comes last m k)) [
  | inl e ↦
      rw e ((comes-Before last m k e, All-Before last m k ks (comes-Before last m k e) o.0), o)
  | inr e ↦
      rw e
        (All-insert_row last k m ks (later-Before last m k e) o.0, insert_row-Ordered last m ks o.1)
]

Mem-insert_row :
    (last : ℤ) (m x : MessageModel) (ks : List MessageModel)
    → Mem x (insert_row last m ks)
    → (m ≡ x) ⊎ Mem x ks
unfolding insert_row
Mem-insert_row last m x [] h = h
Mem-insert_row last m x (k ∷ ks) h = elim (Bool-cases (comes last m k)) [
  | inl e ↦ (rw e at h)
  | inr e ↦ elim (rw e at h) [
    | inl same ↦ inr (inl same)
    | inr rest ↦ elim (Mem-insert_row last m x ks rest) [
      | inl same ↦ inl same
      | inr i ↦ inr (inr i)
    ]
  ]
]

insert_row-Mem :
    (last : ℤ) (m x : MessageModel) (ks : List MessageModel)
    → (m ≡ x) ⊎ Mem x ks
    → Mem x (insert_row last m ks)
unfolding insert_row
insert_row-Mem last m x [] h = h
insert_row-Mem last m x (k ∷ ks) h = elim (Bool-cases (comes last m k)) [
  | inl e ↦ rw e h
  | inr e ↦ rw e (elim h [
    | inl same ↦ inr (insert_row-Mem last m x ks (inl same))
    | inr i ↦ elim i [
      | inl same ↦ inl same
      | inr rest ↦ inr (insert_row-Mem last m x ks (inr rest))
    ]
  ])
]

select-only :
    (g : String) (last : ℤ) (rows : List MessageModel) (m : MessageModel)
    → Mem m (select g last rows)
    → Mem m rows × (m.guild_id ≡ g) × IsPast last m
unfolding select
select-only g last [] m h = absurd h
select-only g last (r ∷ rows) m h = elim (Bool-cases (str_eq r.guild_id g)) [
  | inr e ↦ (let (a, b, c) = select-only g last rows m (rw e at h) in (inr a, b, c))
  | inl e ↦ elim (Bool-cases (is_past last r)) [
    | inr p ↦ (let (a, b, c) = select-only g last rows m (rw (e, p) at h) in (inr a, b, c))
    | inl p ↦ elim (Mem-insert_row last r m (select g last rows) (rw (e, p) at h)) [
      | inl same ↦
          subst (λ x. Mem x (r ∷ rows) × (x.guild_id ≡ g) × IsPast last x) same
            (inl refl, (eq_iff r.guild_id g).0 e, is_past_iff last r p)
      | inr i ↦ (let (a, b, c) = select-only g last rows m i in (inr a, b, c))
    ]
  ]
]

select-every :
    (g : String) (last : ℤ) (rows : List MessageModel) (m : MessageModel)
    → Mem m rows
    → m.guild_id ≡ g
    → IsPast last m
    → Mem m (select g last rows)
unfolding select
select-every g last [] m h of_guild past = absurd h
select-every g last (r ∷ rows) m (inl same) of_guild past =
    let e : str_eq r.guild_id g ≡ true =
      (eq_iff r.guild_id g).1 (subst (λ x. x.guild_id ≡ g) (sym same) of_guild) in
    let p : is_past last r ≡ true = past_is last r (subst (λ x. IsPast last x) (sym same) past) in
    rw (e, p) (insert_row-Mem last r m (select g last rows) (inl same))
select-every g last (r ∷ rows) m (inr i) of_guild past =
    kept (str_eq r.guild_id g && is_past last r) (select-every g last rows m i of_guild past)
  where
    kept :
        (b : Bool)
        → Mem m (select g last rows)
        → Mem m (if b then insert_row last r (select g last rows) else select g last rows)
    kept true h = insert_row-Mem last r m (select g last rows) (inr h)
    kept false h = h

select-Ordered :
    (g : String) (last : ℤ) (rows : List MessageModel) → Ordered last (select g last rows)
unfolding select
select-Ordered g last [] = tt
select-Ordered g last (r ∷ rows) =
    kept (str_eq r.guild_id g && is_past last r) (select-Ordered g last rows)
  where
    kept :
        (b : Bool)
        → Ordered last (select g last rows)
        → Ordered last (if b then insert_row last r (select g last rows) else select g last rows)
    kept true o = insert_row-Ordered last r (select g last rows) o
    kept false o = o

occurrences-insert_row :
    (id : String) (last : ℤ) (m : MessageModel) (ks : List MessageModel)
    → occurrences id (insert_row last m ks) ≡ occurrences id (m ∷ ks)
unfolding insert_row
occurrences-insert_row id last m [] = refl
occurrences-insert_row id last m (k ∷ ks) = elim (Bool-cases (comes last m k)) [
  | inl e ↦ rw e refl
  | inr e ↦ rw e (omega (arith, occurrences-insert_row id last m ks))
]

occurrences-select :
    (id g : String) (last : ℤ) (rows : List MessageModel)
    → occurrences id (select g last rows) ≤ occurrences id rows
unfolding select
occurrences-select id g last [] = omega arith
occurrences-select id g last (r ∷ rows) =
    kept (str_eq r.guild_id g && is_past last r) (occurrences-select id g last rows)
  where
    kept :
        (b : Bool)
        → occurrences id (select g last rows) ≤ occurrences id rows
        → occurrences id (if b then insert_row last r (select g last rows) else select g last rows)
          ≤ occurrences id (r ∷ rows)
    kept true h = omega (arith, h, occurrences-insert_row id last r (select g last rows))
    kept false h = omega (arith, h)

pub table-Documented : {E : Type 0} → Documented (table {E = E})
unfolding table
table-Documented {E} = record {
  rows = λ d. d;
  answers = λ d g last n ms e. (
    select g last d,
    record {
      only = λ m h. select-only g last d m h;
      every = λ m h of_guild past. select-every g last d m h of_guild past;
      once = λ id. occurrences-select id g last d;
      ordered = select-Ordered g last d;
    },
    sym (answer_of _ ms e),
  );
}
  where
    answer_of :
        (a b : List MessageModel) → ◌≡◌ {A = Result E (List MessageModel)} (ok a) (ok b) → a ≡ b
    answer_of a b h = ground (arith, h)
