-- ===== src/Common/Email.antt =====
-- common/services/email.py: `EmailService.enqueue`, which sends at once or queues a task. Either may
-- raise; rendering and delivery are outside the process.
use django_boilderplate.World.{send_email, emit}
use django_boilderplate.World.{delivery_error, raise_if, ◌>>◌, gets, ◌>>=◌, Action}
use django_boilderplate.Env.{Env}
use django_boilderplate.Prelude.{String}

-- `EmailService.enqueue(template=..., recipient=..., ...)`, with the link of the context
unfoldable pub enqueue : Env → (template recipient link : String) → Action (Unit {0})
enqueue env template recipient link = do
  now ← gets (λ w. w.now)
  raise_if (env.mail_fails template recipient link now) delivery_error
  emit (send_email template recipient link)
