-- ===== src/Viewer/Paging.antt =====
-- web/src/pages/Viewer.tsx: what the replies do to each category.
use sentry_usb.Base.{
  ◌≡◌, ◌≢◌, refl, ap, ◌∙◌, Bool, true, false, not, Option, none, some, List, [], ◌∷◌, ◌++◌, map,
  String, str_eq, eq_iff, arith, filter_by, All, Bool-cases, Option-cases, inl, inr,
}
use sentry_usb.Viewer.Library.{
  ClipEntry, ClipGroup, Library, find_group, fetch_reply, append_page, load_more_reply, drop_clip,
  delete_reply,
}

abbrev pub map_group : (ClipGroup → ClipGroup) → Option ClipGroup → Option ClipGroup
map_group f none = none
map_group f (some g) = some (f g)

-- A change of the groups that keeps their names can be made before or after looking one up.
find_group-map :
    (f : ClipGroup → ClipGroup)
    → ((g : ClipGroup) → (f g).name ≡ g.name)
    → (c : String) (groups : List ClipGroup)
    → find_group c (map f groups) ≡ map_group f (find_group c groups)
find_group-map f keep c [] = refl
find_group-map f keep c (g ∷ gs) =
    let e : str_eq (f g).name c ≡ str_eq g.name c = ap (λ n. str_eq n c) (keep g) in
    elim (Bool-cases (str_eq g.name c)) [
      | inl same ↦ rw (e ∙ same, same)
      | inr other ↦ rw (e ∙ other, other) (find_group-map f keep c gs)
    ]

abbrev pub IsOnly : String → List ClipGroup → Type 0
IsOnly category groups = All (λ g. g.name ≡ category) groups

-- A reply that holds groups of one category alone hides no other.
find_group-append :
    (category c : String) (groups reply : List ClipGroup)
    → c ≢ category
    → IsOnly category reply
    → find_group c (filter_by (λ g. not (str_eq g.name category)) groups ++ reply)
      ≡ find_group c groups
find_group-append category c [] [] ne only = refl
find_group-append category c [] (r ∷ rs) ne (named, only) =
    ground (arith, eq_iff r.name c, find_group-append category c [] rs ne only)
find_group-append category c (g ∷ gs) reply ne only =
    ground (
      arith,
      eq_iff g.name category,
      eq_iff g.name c,
      find_group-append category c gs reply ne only,
    )

append_page-name : (category : String) (n g : ClipGroup) → (append_page category n g).name ≡ g.name
append_page-name category n g = ground arith

drop_clip-name :
    (category date : String) (g : ClipGroup) → (drop_clip category date g).name ≡ g.name
drop_clip-name category date g = ground arith

find_group-name :
    (c : String) (gs : List ClipGroup) (g : ClipGroup) → find_group c gs ≡ some g → g.name ≡ c
find_group-name c [] g e = cc
find_group-name c (h ∷ gs) g e = ground (arith, eq_iff h.name c, find_group-name c gs g)

map_group_ne :
    (f : ClipGroup → ClipGroup) (c : String) (gs : List ClipGroup)
    → ((g : ClipGroup) → g.name ≡ c → f g ≡ g)
    → map_group f (find_group c gs) ≡ find_group c gs
map_group_ne f c gs same = elim (Option-cases (find_group c gs)) [
  | inl missing ↦ rw missing
  | inr (g, found) ↦ rw found (ap some (same g (find_group-name c gs g found)))
]

append_page_ne :
    (category c : String) (n g : ClipGroup)
    → c ≢ category
    → g.name ≡ c
    → append_page category n g ≡ g
append_page_ne category c n g ne e = ground (arith, eq_iff g.name category)

drop_clip_ne :
    (category c date : String) (g : ClipGroup)
    → c ≢ category
    → g.name ≡ c
    → drop_clip category date g ≡ g
drop_clip_ne category c date g ne e = ground (arith, eq_iff g.name category)

load_more_other :
    (category c : String) (reply : Option (List ClipGroup)) (l : Library)
    → c ≢ category
    → find_group c (load_more_reply category reply l).groups ≡ find_group c l.groups
unfolding load_more_reply
load_more_other category c none l ne = refl
load_more_other category c (some reply) l ne = elim (Option-cases (find_group category reply)) [
  | inl missing ↦ rw (missing, load_more_reply)
  | inr (n, found) ↦
      rw (found, load_more_reply)
        (find_group-map (append_page category n) (append_page-name category n) c l.groups
          ∙ map_group_ne (append_page category n) c l.groups
              (λ g. append_page_ne category c n g ne))
]

delete_other :
    (thrown : Bool) (category c : String) (clip : ClipEntry) (l : Library)
    → c ≢ category
    → find_group c (delete_reply thrown category clip l).groups ≡ find_group c l.groups
unfolding delete_reply
delete_other true category c clip l ne = refl
delete_other false category c clip l ne =
    find_group-map (drop_clip category clip.date) (drop_clip-name category clip.date) c l.groups
    ∙ map_group_ne (drop_clip category clip.date) c l.groups
        (λ g. drop_clip_ne category c clip.date g ne)

fetch_other :
    (category c : String) (reply : List ClipGroup) (l : Library)
    → c ≢ category
    → IsOnly category reply
    → find_group c (fetch_reply category (some reply) l).groups ≡ find_group c l.groups
unfolding fetch_reply
fetch_other category c reply l ne only = find_group-append category c l.groups reply ne only

named_page :
    (category : String) (n g : ClipGroup)
    → g.name ≡ category
    → append_page category n g ≡ record g { clips = g.clips ++ n.clips; has_more = n.has_more }
named_page category n g e = ground (arith, eq_iff g.name category)

named_drop :
    (category date : String) (g : ClipGroup)
    → g.name ≡ category
    → drop_clip category date g
      ≡ record g { clips = filter_by (λ c. not (str_eq c.date date)) g.clips }
named_drop category date g e = ground (arith, eq_iff g.name category)

-- A reply to a request made for one category: whatever it is, a page of more clips and a deletion
-- leave the group of every other category as it was, and so does a first page that holds groups
-- of that category alone. A page of more clips puts its clips behind those of the category, and a
-- deletion that succeeded takes out exactly the clips of its date there.
category_isolated :
    (category : String) (reply : Option (List ClipGroup)) (page : List ClipGroup) (thrown : Bool)
    (clip : ClipEntry) (l : Library)
    → IsOnly category page
    → ((c : String)
        → c ≢ category
        → (find_group c (load_more_reply category reply l).groups ≡ find_group c l.groups)
          × (find_group c (delete_reply thrown category clip l).groups ≡ find_group c l.groups)
          × (find_group c (fetch_reply category (some page) l).groups ≡ find_group c l.groups))
      × ((n g : ClipGroup)
          → find_group category page ≡ some n
          → find_group category l.groups ≡ some g
          → (find_group category (load_more_reply category (some page) l).groups
              ≡ some (record g { clips = g.clips ++ n.clips; has_more = n.has_more }))
            × (find_group category (delete_reply false category clip l).groups
                ≡ some
                    (record g { clips = filter_by (λ c. not (str_eq c.date clip.date)) g.clips })))
unfolding load_more_reply delete_reply
category_isolated category reply page thrown clip l only = (
  λ c ne. (
    load_more_other category c reply l ne,
    delete_other thrown category c clip l ne,
    fetch_other category c page l ne only,
  ),
  λ n g new old. (
    rw (new, load_more_reply)
        (find_group-map (append_page category n) (append_page-name category n) category l.groups
          ∙ rw old (ap some (named_page category n g (find_group-name category l.groups g old)))),
    find_group-map (drop_clip category clip.date) (drop_clip-name category clip.date) category
          l.groups
        ∙ rw old
            (ap some (named_drop category clip.date g (find_group-name category l.groups g old))),
  ),
)
