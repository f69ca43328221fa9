-- ===== src/Passthrough/Distinct.antt =====
-- `UniqueInodeGenerator` of src/passthrough/util.rs gives different files of the host different
-- numbers.
use fuse_backend_rs.Prelude.{
  ℕ, ◌+◌, ◌*◌, ◌^◌, ◌%◌, ◌≤◌, ◌<◌, ◌≡◌, refl, sym, ap, ◌∙◌, ◌⊎◌, inl, inr, Bool, true, false, ◌&&◌,
  Bool-cases, Option, Option-cases, none, some, List, ◌∷◌, ◌==◌, ==_iff, leb, if◌then◌else◌, arith,
}
use fuse_backend_rs.Prelude.Outcome.{ok, err}
use fuse_backend_rs.Prelude.Bits.{bit_or-shifted}
use fuse_backend_rs.Fs.{other}
use fuse_backend_rs.Passthrough.Unique.{
  InodeIds, UniqueInodeGenerator, new_generator, max_host_ino, id_of, get_unique_inode, paired,
  numbered_pair,
}

-- Different pairs of device and mount have different numbers, which were given out.
pub record IsDistinct (g : UniqueInodeGenerator) : Type 0 where
  pub below : (d m u : ℕ) → id_of d m g.dev_mntid_map ≡ some u → u < g.next_unique_id
  pub one_pair :
      (d m d' m' u : ℕ)
      → id_of d m g.dev_mntid_map ≡ some u
      → id_of d' m' g.dev_mntid_map ≡ some u
      → (d ≡ d') × (m ≡ m')
  pub last : g.next_unique_id < 256

if_some_cases :
    (b : Bool) (u w : ℕ) (rest : Option ℕ)
    → (if b then some u else rest) ≡ some w
    → ((b ≡ true) × (u ≡ w)) ⊎ (rest ≡ some w)
if_some_cases true u w rest e = inl (refl, cc e)
if_some_cases false u w rest e = inr e

both_true : (a b : Bool) → (a && b) ≡ true → (a ≡ true) × (b ≡ true)
both_true true true e = (refl, refl)
both_true true false e = (refl, e)
both_true false b e = (e, absurd (cc e))

-- Where an entry of the extended map comes from.
id_of_cases :
    (dev mnt d m u w : ℕ) (map : List ((ℕ × ℕ) × ℕ))
    → id_of d m (((dev, mnt), u) ∷ map) ≡ some w
    → ((dev ≡ d) × (mnt ≡ m) × (u ≡ w)) ⊎ (id_of d m map ≡ some w)
unfolding id_of
id_of_cases dev mnt d m u w map e =
    elim (if_some_cases ((dev == d) && (mnt == m)) u w (id_of d m map) e) [
      | inl (found, same) ↦
          let (t, t') = both_true (dev == d) (mnt == m) found in
          inl ((==_iff dev d).0 t, (==_iff mnt m).0 t', same)
      | inr old ↦ inr old
    ]

id_of-first :
    (dev mnt u : ℕ) (map : List ((ℕ × ℕ) × ℕ)) → id_of dev mnt (((dev, mnt), u) ∷ map) ≡ some u
unfolding id_of
id_of-first dev mnt u map = ground arith

id_of-older :
    (dev mnt u d m w : ℕ) (map : List ((ℕ × ℕ) × ℕ))
    → id_of dev mnt map ≡ none
    → id_of d m map ≡ some w
    → id_of d m (((dev, mnt), u) ∷ map) ≡ some w
unfolding id_of
id_of-older dev mnt u d m w map fresh e = elim (Bool-cases ((dev == d) && (mnt == m))) [
  | inl found ↦
      let (t, t') = both_true (dev == d) (mnt == m) found in
      let same : id_of dev mnt map ≡ id_of d m map =
        λ i. id_of ((==_iff dev d).0 t i) ((==_iff mnt m).0 t' i) map in
      let clash : none ≡ some w = sym fresh ∙ same ∙ e in absurd (cc clash)
  | inr apart ↦ rw apart e
]

-- What a call leaves: the pair's number, and the numbers that there were.
record Numbered (g g' : UniqueInodeGenerator) (dev mnt u : ℕ) : Type 0 where
  distinct : IsDistinct g'
  own : id_of dev mnt g'.dev_mntid_map ≡ some u
  old : (d m w : ℕ) → id_of d m g.dev_mntid_map ≡ some w → id_of d m g'.dev_mntid_map ≡ some w

with_pair : UniqueInodeGenerator → ℕ → ℕ → UniqueInodeGenerator
with_pair g dev mnt = record g {
  dev_mntid_map = ((dev, mnt), g.next_unique_id) ∷ g.dev_mntid_map;
  next_unique_id = (g.next_unique_id + 1) % 256;
}

with_pair-Numbered :
    (g : UniqueInodeGenerator) (dev mnt : ℕ)
    → IsDistinct g
    → id_of dev mnt g.dev_mntid_map ≡ none
    → g.next_unique_id < 255
    → Numbered g (with_pair g dev mnt) dev mnt g.next_unique_id
unfolding with_pair
with_pair-Numbered g dev mnt is fresh room = record {
  distinct = record {
    below = λ d m u e. elim (id_of_cases dev mnt d m g.next_unique_id u g.dev_mntid_map e) [
      | inl (same, same', number) ↦ omega arith
      | inr old ↦ omega (arith, is.below d m u old)
    ];
    one_pair = λ d m d' m' u e e'.
        elim (id_of_cases dev mnt d m g.next_unique_id u g.dev_mntid_map e) [
          | inl (a, b, n) ↦ elim (id_of_cases dev mnt d' m' g.next_unique_id u g.dev_mntid_map e') [
            | inl (a', b', n') ↦ (sym a ∙ a', sym b ∙ b')
            | inr old' ↦ absurd (omega (arith, n, is.below d' m' u old'))
          ]
          | inr old ↦ elim (id_of_cases dev mnt d' m' g.next_unique_id u g.dev_mntid_map e') [
            | inl (a', b', n') ↦ absurd (omega (arith, n', is.below d m u old))
            | inr old' ↦ is.one_pair d m d' m' u old old'
          ]
        ];
    last = omega arith;
  };
  own = id_of-first dev mnt g.next_unique_id g.dev_mntid_map;
  old = λ d m w e. id_of-older dev mnt g.next_unique_id d m w g.dev_mntid_map fresh e;
}

paired-Numbered :
    (g : UniqueInodeGenerator) (dev mnt : ℕ)
    → IsDistinct g
    → ((g' : UniqueInodeGenerator) × (u : ℕ) × (paired dev mnt g (id_of dev mnt g.dev_mntid_map)
          ≡ (g', ok u))
        × Numbered g g' dev mnt u)
      ⊎ (paired dev mnt g (id_of dev mnt g.dev_mntid_map) ≡ (g, err other))
unfolding with_pair
paired-Numbered g dev mnt is = elim (Option-cases (id_of dev mnt g.dev_mntid_map)) [
  | inr (w, known) ↦
      inl (
        g,
        w,
        ap (paired dev mnt g) known,
        record { distinct = is; own = known; old = λ d m u e. e },
      )
  | inl fresh ↦ elim (Bool-cases (g.next_unique_id == 255)) [
    | inl t ↦ inr (ap (paired dev mnt g) fresh ∙ rw t refl)
    | inr f ↦ inl (
      with_pair g dev mnt,
      g.next_unique_id,
      ap (paired dev mnt g) fresh ∙ rw f refl,
      with_pair-Numbered g dev mnt is fresh (room g.next_unique_id f is.last),
    )
  ]
]
  where
    room : (n : ℕ) → n == 255 ≡ false → n < 256 → n < 255
    room n f h = ground (arith, f, h)

-- The number of a file, by its pair of device and mount and the host's number.
abbrev pub Agrees : InodeIds → UniqueInodeGenerator → ℕ → ℕ → Type 0
Agrees ids g id number =
    (u : ℕ) × (id_of (ids.dev id) (ids.mnt id) g.dev_mntid_map ≡ some u)
    × (number ≡ u * 2 ^ 47 + ids.ino id)

abbrev pub SameFile : InodeIds → ℕ → ℕ → Type 0
SameFile ids a b = (ids.dev a ≡ ids.dev b) × (ids.mnt a ≡ ids.mnt b) × (ids.ino a ≡ ids.ino b)

Agrees-SameFile :
    (ids : InodeIds) (g : UniqueInodeGenerator) (a b n : ℕ)
    → IsDistinct g
    → ids.ino a ≤ max_host_ino
    → ids.ino b ≤ max_host_ino
    → Agrees ids g a n
    → Agrees ids g b n
    → SameFile ids a b
Agrees-SameFile ids g a b n is small small' (u, e, at) (u', e', at') =
    let same : u' ≡ u = omega (arith, at, at') in
    let (dev, mnt) =
      is.one_pair (ids.dev a) (ids.mnt a) (ids.dev b) (ids.mnt b) u e (e' ∙ ap some same) in
    (dev, mnt, omega (arith, at, at', same))

-- What a call gives: a number of 55 bits that the file has from then on, as every file keeps the
-- number that it had.
pub record Gives (ids : InodeIds) (g g' : UniqueInodeGenerator) (id number : ℕ) : Type 0 where
  pub distinct : IsDistinct g'
  pub bounded : number < 2 ^ 55
  pub own : Agrees ids g' id number
  pub kept : (f n : ℕ) → Agrees ids g f n → Agrees ids g' f n
  pub apart : (f : ℕ) → ids.ino f ≤ max_host_ino → Agrees ids g' f number → SameFile ids f id

pub new_generator-IsDistinct : IsDistinct new_generator
unfolding id_of
new_generator-IsDistinct = record {
  below = λ d m u e. absurd (cc e);
  one_pair = λ d m d' m' u e e'. absurd (cc e);
  last = omega arith;
}

-- A number for a file whose number on the host has 47 bits, from a generator whose pairs have
-- different numbers: it has 55 bits and no other file with such a number has it, every file keeps
-- the number that it had, and pairs have different numbers still; or the pairs are used up, and
-- the call fails and changes nothing.
pub get_unique_inode-Gives :
    (ids : InodeIds) (g : UniqueInodeGenerator) (id : ℕ)
    → IsDistinct g
    → ids.ino id ≤ max_host_ino
    → ((g' : UniqueInodeGenerator) × (number : ℕ) × (get_unique_inode ids g id ≡ (g', ok number))
        × Gives ids g g' id number)
      ⊎ (get_unique_inode ids g id ≡ (g, err other))
unfolding get_unique_inode
get_unique_inode-Gives ids g id is small =
    let fits : leb (ids.ino id) max_host_ino ≡ true = ground (arith, small) in
    elim (paired-Numbered g (ids.dev id) (ids.mnt id) is) [
      | inr e ↦ inr (ap (numbered_pair (ids.ino id)) e)
      | inl (g', u, e, is') ↦
          let number = u * 2 ^ 47 + ids.ino id in
          let at : Agrees ids g' id number = (u, is'.own, refl) in
          inl (
            g',
            number,
            ap (numbered_pair (ids.ino id)) e
                ∙ rw fits (
                    ap (λ k. (g', ok k)) (bit_or-shifted 47 u (ids.ino id) (omega (arith, small)))),
            record {
              distinct = is'.distinct;
              bounded =
                  omega (arith, small, is'.distinct.below (ids.dev id) (ids.mnt id) u is'.own);
              own = at;
              kept = λ f n (w, known, same). (w, is'.old (ids.dev f) (ids.mnt f) w known, same);
              apart = λ f small' at'.
                  Agrees-SameFile ids g' f id number is'.distinct small' small at' at;
            },
          )
    ]
