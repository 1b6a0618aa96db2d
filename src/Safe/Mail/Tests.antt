-- ===== src/Safe/Mail/Tests.antt =====
-- The theorems on mail at concrete runs.
use switchdesk_engine.Prelude.{none, some, [], ◌∷◌, ◌≡◌, ◌≢◌, refl, codes, Bytes, List}
use switchdesk_engine.Safe.Mail.{
  Mail, Post, event, found_or_new, create, empty_mail, find, emplace, release, disown, cleanup,
}
use switchdesk_engine.Safe.Mail.Posts.{Call, events, releases, cleanups, run, step, event_answers}

abbrev name : Bytes
name = codes "shutdown"

abbrev calls : List Call
calls = events name ∷ releases name ∷ cleanups ∷ []

settled : (run empty_mail calls).dying ≡ 0
unfolding run step empty_mail event found_or_new create find emplace release disown cleanup
settled = refl

event_answers_example : (event name (run empty_mail calls)).0 ≢ none
event_answers_example = event_answers calls name settled

abbrev post : Post
post = record { id = name; number = 0; owners = 1 }

abbrev held : Mail
held = record { id_to_post = post ∷ []; next_number = 1; dying = 0 }

found : find name held.id_to_post ≡ some post
unfolding find
found = refl
