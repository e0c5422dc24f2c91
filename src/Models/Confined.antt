-- ===== src/Models/Confined.antt =====
-- src/py-inference/src/model/foc_real.py: which archives pass the checks of `_safe_extractall`.
use openmodel.Base.{All, ◌≡◌, ◌↔◌, ◌⊎◌, refl, subst, true, List, [], ◌∷◌, arith}
use openmodel.Base.Text.{Text}
use openmodel.Models.Cids.{AllLack}
use openmodel.Models.Archive.{
  Member, MemberKind, plain, linked, parent, resolve, is_below, link_check, check_member,
  safe_members,
}
use openmodel.Models.Paths.{
  Below, parent-AllLack, resolve-AllLack, is_below-Below, Below-is_below, target-Below,
}

-- The member is extracted into the directory, or is the directory itself, and a link leads below it.
abbrev pub Confined : List Text → Member → Type 0
Confined dest m =
    ((resolve dest m.name ≡ dest) ⊎ Below dest (resolve dest m.name))
    × ((link : Text)
        → m.kind ≡ linked link
        → Below dest (resolve (parent (resolve dest m.name)) link))

link_check-Below :
    (dest target : List Text) (k : MemberKind)
    → AllLack b'/' dest
    → AllLack b'/' target
    → (link_check dest target k ≡ true)
      ↔ ((link : Text) → k ≡ linked link → Below dest (resolve (parent target) link))
unfolding link_check
link_check-Below dest target plain h t = (λ e link x. absurd (ground arith), λ f. refl)
link_check-Below dest target (linked link) h t = (
  λ e other x.
      is_below-Below dest (resolve (parent target) other) h
        (resolve-AllLack (parent target) other (parent-AllLack b'/' target t))
        (subst (λ l. is_below dest (resolve (parent target) l) ≡ true) (ground arith) e),
  λ f. Below-is_below dest (resolve (parent target) link) (f link refl),
)

check_member-Confined :
    (dest : List Text) (m : Member)
    → AllLack b'/' dest
    → (check_member dest m ≡ true) ↔ Confined dest m
unfolding check_member
check_member-Confined dest m h =
    let target = resolve dest m.name in
    let t : AllLack b'/' target = resolve-AllLack dest m.name h in
    let (inside, member_of) = target-Below dest target h t in
    let (leads, link_of) = link_check-Below dest target m.kind h t in
    (
      λ e. (inside (ground arith), leads (ground arith)),
      λ (i, l). ground (arith, member_of i, link_of l),
    )

-- An archive passes the checks exactly when every member's path, resolved from the directory, is the
-- directory or lies below it, and every link, resolved from the member's own directory, leads below
-- it. So a directory whose name merely begins like the destination's is refused, and a member that
-- climbs out and back in is not. No component of the destination holds a slash.
pub safe_members-Confined :
    (dest : List Text) (ms : List Member)
    → AllLack b'/' dest
    → (safe_members dest ms ≡ true) ↔ All (Confined dest) ms
unfolding safe_members
safe_members-Confined dest [] h = (λ e. tt, λ c. refl)
safe_members-Confined dest (m ∷ ms) h =
    let (f, g) = check_member-Confined dest m h in
    let (fs, gs) = safe_members-Confined dest ms h in
    (λ e. (f (ground arith), fs (ground arith)), λ (c, cs). ground (arith, g c, gs cs))
