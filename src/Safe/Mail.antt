-- ===== src/Safe/Mail.antt =====
-- `mail_raw_t`, `post_t` and `cleanup` of src/thread_safe.h: events and queues by name. The std::map
-- is a list in the order of its keys; a weak pointer is the post's number and the count of the
-- shared pointers that own it. The mutex makes `event`, `queue` and `cleanup` one step each; the
-- destructor of a post, which cleans, runs a step of its own after the count has reached 0.
pub mod Posts
mod Tests
use switchdesk_engine.Prelude.{
  ℕ, zero, suc, ◌+◌, ◌-◌, Bool, true, false, Option, none, some, List, [], ◌∷◌, ◌==◌, ltb,
  if◌then◌else◌, Bytes, bytes_eq,
}

pub record Post : Type 0 where
  pub id : Bytes
  pub number : ℕ
  pub owners : ℕ

pub record Mail : Type 0 where
  pub id_to_post : List Post
  pub next_number : ℕ
  -- The destructors that have not cleaned yet.
  pub dying : ℕ

-- `operator<` of std::string.
pub bytes_ltb : Bytes → Bytes → Bool
bytes_ltb xs [] = false
bytes_ltb [] (y ∷ ys) = true
bytes_ltb (x ∷ xs) (y ∷ ys) = if ltb x y then true else if x == y then bytes_ltb xs ys else false

pub emplace : Post → List Post → List Post
emplace p [] = p ∷ []
emplace p (q ∷ qs) = let rest = emplace p qs in if bytes_ltb p.id q.id then p ∷ q ∷ qs else q ∷ rest

pub find : Bytes → List Post → Option Post
find id [] = none
find id (p ∷ ps) = if bytes_eq p.id id then some p else find id ps

pub expired : Post → Bool
expired p = p.owners == 0

-- One more owner for the post of a name.
pub share : Bytes → List Post → List Post
share id [] = []
share id (p ∷ ps) =
    let rest = share id ps in
    if bytes_eq p.id id then record p { owners = suc p.owners } ∷ ps else p ∷ rest

-- `lock`, on the post that `find` found for a name: a null pointer if it has expired.
pub lock : Bytes → Post → Mail → Option ℕ × Mail
unfolding expired
lock id p m =
    if expired p
    then (none, m)
    else (some p.number, record m { id_to_post = share id m.id_to_post })

pub create : Bytes → Mail → Option ℕ × Mail
create id m = (
  some m.next_number,
  record m {
    id_to_post = emplace (record { id = id; number = m.next_number; owners = 1 }) m.id_to_post;
    next_number = suc m.next_number;
  },
)

found_or_new : Bytes → Option Post → Mail → Option ℕ × Mail
unfolding lock create
found_or_new id (some p) m = lock id p m
found_or_new id none m = create id m

-- `event` and `queue`, which differ in what they make.
pub event : Bytes → Mail → Option ℕ × Mail
unfolding found_or_new
event id m = found_or_new id (find id m.id_to_post) m

pub erase_expired : List Post → List Post
erase_expired [] = []
erase_expired (p ∷ ps) = let rest = erase_expired ps in if expired p then ps else p ∷ rest

-- `cleanup`, at the end of a destructor.
pub cleanup : Mail → Mail
cleanup m = record m { id_to_post = erase_expired m.id_to_post; dying = m.dying - 1 }

-- An owner of a post goes; whether it was the last.
pub disown : Bytes → List Post → List Post × Bool
disown id [] = ([], false)
disown id (p ∷ ps) =
    let rest = disown id ps in
    if bytes_eq p.id id
    then (record p { owners = p.owners - 1 } ∷ ps, p.owners == 1)
    else (p ∷ rest.0, rest.1)

pub release : Bytes → Mail → Mail
release id m =
    let r = disown id m.id_to_post in
    record m { id_to_post = r.0; dying = if r.1 then suc m.dying else m.dying }

pub empty_mail : Mail
empty_mail = record { id_to_post = []; next_number = 0; dying = 0 }
