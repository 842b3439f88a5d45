-- ===== src/Access/Rows/Joins.antt =====
-- The join of findLessonWithCourse, row by row.
use lamp_light.Base.{
  ◌≡◌, refl, ◌⊎◌, inl, inr, Bool, true, false, some, List, [], ◌∷◌, ◌++◌, if◌then◌else◌, head?,
  Memᴰ, arith, and-eq-true,
}
use lamp_light.Base.Text.{Text, ◌==◌, eq_iff}
use lamp_light.Db.{Scope}
use lamp_light.Db.Queries.{flat_map}
use lamp_light.Db.Lessons.{
  LessonWithCourse, joined, course_rows, module_rows, lesson_rows, find_lesson_with_course,
}
use lamp_light.Access.Rows.{Located}

mem-append : {A : Type 0} {x : A} (xs ys : List A) → Memᴰ x (xs ++ ys) → Memᴰ x xs ⊎ Memᴰ x ys
mem-append [] ys m = inr m
mem-append (z ∷ xs) ys (Memᴰ.head e) = inl (Memᴰ.head e)
mem-append (z ∷ xs) ys (Memᴰ.tail m) = elim (mem-append xs ys m) [
  | inl a ↦ inl (Memᴰ.tail a)
  | inr b ↦ inr b
]

mem-flat_map :
    {A B : Type 0} {y : B} (f : A → List B) (xs : List A)
    → Memᴰ y (flat_map f xs)
    → (x : A) × Memᴰ x xs × Memᴰ y (f x)
mem-flat_map f [] m = elim m [ ]
mem-flat_map f (x ∷ xs) m = elim (mem-append (f x) (flat_map f xs) m) [
  | inl here ↦ (x, Memᴰ.head refl, here)
  | inr later ↦ let (z, a, b) = mem-flat_map f xs later in (z, Memᴰ.tail a, b)
]

mem-guarded :
    {B : Type 0} {y : B} (b : Bool) (xs : List B)
    → Memᴰ y (if b then xs else [])
    → (b ≡ true) × Memᴰ y xs
mem-guarded true xs m = (refl, m)
mem-guarded false xs m = elim m [ ]

head?-mem : {A : Type 0} (xs : List A) (x : A) → head? xs ≡ some x → Memᴰ x xs
head?-mem [] x e = cc
head?-mem (y ∷ xs) x e = Memᴰ.head (ground arith)

mem-single : {A : Type 0} {x y : A} → Memᴰ x (y ∷ []) → x ≡ y
mem-single (Memᴰ.head e) = e
mem-single (Memᴰ.tail m) = elim m [ ]

-- The lesson that the join finds hangs under a course of the institute.
pub find_lesson_with_course-Located :
    (s : Scope) (lesson_id : Text) (w : LessonWithCourse)
    → find_lesson_with_course s lesson_id ≡ some w
    → Located s lesson_id w
unfolding find_lesson_with_course
find_lesson_with_course-Located s lesson_id w e =
    let m = head?-mem (flat_map (lesson_rows s lesson_id) s.db.lessons) w e in
    let (l, lm, in_l) = mem-flat_map (lesson_rows s lesson_id) s.db.lessons m in
    let (lb, in_ms) = mem-guarded _ (flat_map (module_rows s l) s.db.modules) in_l in
    let (p, pm, in_p) = mem-flat_map (module_rows s l) s.db.modules in_ms in
    let (pb, in_cs) = mem-guarded _ (flat_map (course_rows s l p) s.db.courses) in_p in
    let (c, cm, in_c) = mem-flat_map (course_rows s l p) s.db.courses in_cs in
    let (cb, in_row) = mem-guarded _ (joined l p c ∷ []) in_c in
    let (lt, li) = and-eq-true (l.tenant_id == s.tenant_id) (l.id == lesson_id) lb in
    let (pt, pi) = and-eq-true (p.tenant_id == s.tenant_id) (p.id == l.module_id) pb in
    let (ct, ci) = and-eq-true (c.tenant_id == s.tenant_id) (c.id == p.course_id) cb in
    record {
      lesson = l;
      parent = p;
      course = c;
      rows = (lm, pm, cm);
      tenants = ((eq_iff _ _).0 lt, (eq_iff _ _).0 pt, (eq_iff _ _).0 ct);
      keys = ((eq_iff _ _).0 li, (eq_iff _ _).0 pi, (eq_iff _ _).0 ci);
      fields = mem-single in_row;
    }
