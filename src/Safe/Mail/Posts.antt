-- ===== src/Safe/Mail/Posts.antt =====
-- The names of a mail: each name has one post, and only a dying post is in the way of a new one.
use switchdesk_engine.Prelude.{
  ℕ, suc, ◌-◌, ◌<◌, true, false, Option, none, some, List, [], ◌∷◌, ◌==◌, if◌then◌else◌, Bytes,
  bytes_eq_refl, ◌≡◌, refl, arith, ◌∙◌, ◌≢◌,
}
use switchdesk_engine.Safe.Mail.{
  Post, Mail, emplace, find, expired, share, lock, create, event, found_or_new, erase_expired,
  cleanup, disown, release, empty_mail,
}

pub data Call : Type 0 where
  events releases : Bytes → Call
  cleanups : Call

-- A destructor runs only for a post that has lost its owners.
unfoldable pub step : Mail → Call → Mail
step m (events id) = (event id m).1
step m (releases id) = release id m
step m cleanups = if m.dying == 0 then m else cleanup m

unfoldable pub run : Mail → List Call → Mail
run m [] = m
run m (c ∷ cs) = run (step m c) cs

abbrev pub expired_count : List Post → ℕ
expired_count [] = 0
expired_count (p ∷ ps) = if p.owners == 0 then suc (expired_count ps) else expired_count ps

expired_count-emplace :
    (p : Post) (ps : List Post) → 0 < p.owners → expired_count (emplace p ps) ≡ expired_count ps
unfolding emplace
expired_count-emplace p [] h = ground arith
expired_count-emplace p (q ∷ qs) h = ground (arith, expired_count-emplace p qs h)

expired_count-share :
    (id : Bytes) (ps : List Post) (p : Post)
    → find id ps ≡ some p
    → 0 < p.owners
    → expired_count (share id ps) ≡ expired_count ps
unfolding share find
expired_count-share id [] p f h = ground arith
expired_count-share id (q ∷ qs) p f h = ground (arith, expired_count-share id qs p)

expired_count-disown :
    (id : Bytes) (ps : List Post)
    → expired_count (disown id ps).0
      ≡ (if (disown id ps).1 then suc (expired_count ps) else expired_count ps)
unfolding disown
expired_count-disown id [] = refl
expired_count-disown id (p ∷ ps) = ground (arith, expired_count-disown id ps)

expired_count-erase : (ps : List Post) → expired_count (erase_expired ps) ≡ expired_count ps - 1
unfolding erase_expired expired
expired_count-erase [] = refl
expired_count-erase (p ∷ ps) = ground (arith, expired_count-erase ps)

pub Inv : Mail → Type 0
Inv m = expired_count m.id_to_post ≡ m.dying

found_or_new-Inv :
    (id : Bytes) (o : Option Post) (m : Mail)
    → find id m.id_to_post ≡ o
    → Inv m
    → Inv (found_or_new id o m).1
unfolding found_or_new lock create expired Inv
found_or_new-Inv id none m f v =
    expired_count-emplace (record { id = id; number = m.next_number; owners = 1 }) m.id_to_post
      (omega arith)
    ∙ v
found_or_new-Inv id (some p) m f v = ground (arith, expired_count-share id m.id_to_post p)

step-Inv : (m : Mail) (c : Call) → Inv m → Inv (step m c)
unfolding step event release cleanup Inv
step-Inv m (events id) v = found_or_new-Inv id (find id m.id_to_post) m refl v
step-Inv m (releases id) v = ground (arith, expired_count-disown id m.id_to_post)
step-Inv m cleanups v = ground (arith, expired_count-erase m.id_to_post)

run-Inv : (m : Mail) (cs : List Call) → Inv m → Inv (run m cs)
unfolding run
run-Inv m [] v = v
run-Inv m (c ∷ cs) v = run-Inv (step m c) cs (step-Inv m c v)

find-owned :
    (id : Bytes) (ps : List Post) (p : Post)
    → find id ps ≡ some p
    → expired_count ps ≡ 0
    → expired p ≡ false
unfolding find expired
find-owned id [] p f h = ground arith
find-owned id (q ∷ qs) p f h = ground (arith, find-owned id qs p)

find-share :
    (id : Bytes) (ps : List Post) (p : Post)
    → find id ps ≡ some p
    → find id (share id ps) ≡ some (record p { owners = suc p.owners })
unfolding find share
find-share id [] p f = ground arith
find-share id (q ∷ qs) p f = ground (arith, find-share id qs p)

find-emplace : (p : Post) (ps : List Post) → find p.id ps ≡ none → find p.id (emplace p ps) ≡ some p
unfolding find emplace
find-emplace p [] f = ground (arith, bytes_eq_refl p.id)
find-emplace p (q ∷ qs) f = ground (arith, find-emplace p qs, bytes_eq_refl p.id)

-- What `find` answers after `event`.
pub Shares : Bytes → Option ℕ × Mail → Type 0
Shares id r = (n : ℕ) → r.0 ≡ some n → (event id r.1).0 ≡ some n

found_or_new-Shares :
    (id : Bytes) (o : Option Post) (m : Mail)
    → find id m.id_to_post ≡ o
    → Shares id (found_or_new id o m)
unfolding found_or_new lock create event expired Shares
found_or_new-Shares id none m f n e =
    rw (find-emplace (record { id = id; number = m.next_number; owners = 1 }) m.id_to_post f) e
found_or_new-Shares id (some p) m f n e = ground (arith, find-share id m.id_to_post p f)

found_or_new-answers :
    (id : Bytes) (o : Option Post) (m : Mail)
    → find id m.id_to_post ≡ o
    → expired_count m.id_to_post ≡ 0
    → (found_or_new id o m).0 ≢ none
unfolding found_or_new lock create
found_or_new-answers id none m f h e = ground arith
found_or_new-answers id (some p) m f h e = ground (arith, find-owned id m.id_to_post p f h)

-- Whatever was asked for and let go: while no destructor is running, `event` and `queue` return a
-- post, never a null pointer.
pub event_answers :
    (cs : List Call) (id : Bytes)
    → (run empty_mail cs).dying ≡ 0
    → (event id (run empty_mail cs)).0 ≢ none
unfolding event Inv
event_answers cs id h =
    let m = run empty_mail cs in
    found_or_new-answers id _ m refl (run-Inv empty_mail cs (unfold Inv empty_mail in refl) ∙ h)

-- The post that `event` returned for a name is what it returns for the name again.
pub event_shared :
    (id : Bytes) (m : Mail) (n : ℕ) → (event id m).0 ≡ some n → (event id (event id m).1).0 ≡ some n
unfolding Shares event
event_shared id m n e = found_or_new-Shares id _ m refl n e

find-disown :
    (id : Bytes) (ps : List Post) (p : Post)
    → find id ps ≡ some p
    → p.owners ≡ 1
    → (find id (disown id ps).0 ≡ some (record p { owners = p.owners - 1 }))
      × ((disown id ps).1 ≡ true)
unfolding find disown
find-disown id [] p f h = ground arith
find-disown id (q ∷ qs) p f h = ground (arith, find-disown id qs p)

found_expired :
    (id : Bytes) (m : Mail) (p : Post)
    → find id m.id_to_post ≡ some p
    → p.owners ≡ 0
    → (event id m).0 ≡ none
unfolding event found_or_new lock expired
found_expired id m p f h = rw f (ground arith)

-- Between the last release of a name's post and its destructor's cleanup, `event` returns a null
-- pointer.
pub event_null :
    (id : Bytes) (m : Mail) (p : Post)
    → find id m.id_to_post ≡ some p
    → p.owners ≡ 1
    → ((event id (release id m)).0 ≡ none) × ((release id m).dying ≡ suc m.dying)
unfolding event release
event_null id m p f h =
    let (found, last) = find-disown id m.id_to_post p f h in
    (
      found_expired id (release id m) (record p { owners = p.owners - 1 }) (unfold release in found)
          (omega (arith, h)),
      ground arith,
    )
