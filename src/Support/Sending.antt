-- ===== src/Support/Sending.antt =====
-- web/src/pages/Support.tsx: what `handleSend` leaves behind.
use sentry_usb.Base.{
  ℕ, ◌≡◌, ◌⊎◌, refl, ◌∙◌, Bool, true, false, not, ◌&&◌, Option, none, some, List, String,
  Bool-cases, inl, inr,
}
use sentry_usb.Base.Text.{trim, is_empty, truthy}
use sentry_usb.Base.Exec.{done, try_catch, finally_do}
use sentry_usb.Base.Ensures.{
  Ensures, Ensures-pure, Ensures-throw, Ensures-lift, Ensures-try_catch, Ensures-finally_do,
  Ensures-modify, Ensures-bind, Ensures-if, Ensures-weaken, IsAfter-both,
}
use sentry_usb.Support.Chat.{
  Ticket, File, loading, error, post_ticket, post_message, post_media, Support, save_ticket,
}
use sentry_usb.Support.Sanitize.{sanitize}
use sentry_usb.Support.Send.{
  Created, Answers, is_some, show, collect, ticket_of, keep_ticket, create_ticket, send_message,
  ticket_for, upload, clear_form, send_body, handle_send, or_text,
}
use sentry_usb.Support.Form.{
  IsSameForm, HasTicket, IsSent, IsKept, IsStable, show-Ensures, post-Ensures,
}

module _ (s : Support) where
  abbrev Same : Support → Type 0
  Same t = IsSameForm s t × (t.ticket ≡ s.ticket)

  abbrev Ready : Support → Type 0
  Ready t = IsSameForm s t × HasTicket t

  Same-IsStable : IsStable Same
  Same-IsStable = record {
    status = λ t st h. (
      record {
        message = h.0.message;
        include_diagnostics = h.0.include_diagnostics;
        attachment = h.0.attachment;
        messages = h.0.messages;
      },
      h.1,
    );
    posted = λ t rs h. (
      record {
        message = h.0.message;
        include_diagnostics = h.0.include_diagnostics;
        attachment = h.0.attachment;
        messages = h.0.messages;
      },
      h.1,
    );
  }

  Ready-IsStable : IsStable Ready
  Ready-IsStable = record {
    status = λ t st h. (
      record {
        message = h.0.message;
        include_diagnostics = h.0.include_diagnostics;
        attachment = h.0.attachment;
        messages = h.0.messages;
      },
      record { ticket = h.1.ticket; there = h.1.there },
    );
    posted = λ t rs h. (
      record {
        message = h.0.message;
        include_diagnostics = h.0.include_diagnostics;
        attachment = h.0.attachment;
        messages = h.0.messages;
      },
      record { ticket = h.1.ticket; there = h.1.there },
    );
  }

  collect-Ensures : (a : Answers) (b : Bool) → Ensures Same (collect a b) Same (IsSameForm s)
  unfolding collect
  collect-Ensures a false = Ensures-pure none (λ t h. h)
  collect-Ensures a true =
      Ensures-bind _ _ (show-Ensures Same-IsStable "Collecting diagnostics..." loading) (λ _.
        Ensures-bind _ _ (Ensures-lift a.diagnostics (λ t h. h) (λ t h. h.0))
          (λ raw. Ensures-pure (some (sanitize raw)) (λ t h. h)))

  keep_ticket-Ensures :
      (a : Answers) (c : Created) → Ensures Same (keep_ticket a c) Ready (IsSameForm s)
  unfolding keep_ticket save_ticket
  keep_ticket-Ensures a c =
      Ensures-bind {R = Ready} _ _
        (Ensures-modify _ (λ t h. (
          record {
            message = h.0.message;
            include_diagnostics = h.0.include_diagnostics;
            attachment = h.0.attachment;
            messages = h.0.messages;
          },
          record { ticket = ticket_of c; there = refl },
        )))
        (λ _. Ensures-pure (ticket_of c) (λ t h. h))

  create_ticket-Ensures :
      (a : Answers) (text : String) (b : Bool) (diagnostics : Option (List ℕ))
      → Ensures Same (create_ticket a text b diagnostics) Ready (IsSameForm s)
  unfolding create_ticket
  create_ticket-Ensures a text b diagnostics =
      Ensures-bind _ _ (show-Ensures Same-IsStable "Creating support ticket..." loading) (λ _.
        Ensures-bind _ _ (post-Ensures Same-IsStable (post_ticket text diagnostics b)) (λ _.
          Ensures-bind _ _ (Ensures-lift a.created (λ t h. h) (λ t h. h.0)) (λ c.
            Ensures-if (not c.success && not (truthy c.ticket_id)) _ _
              (Ensures-throw (or_text c.error_text "Failed to create ticket") (λ t h. h.0))
              (keep_ticket-Ensures a c))))

  send_message-Ensures :
      (a : Answers) (t : Ticket) (text : String) (diagnostics : Option (List ℕ))
      → Ensures Ready (send_message a t text diagnostics) Ready (IsSameForm s)
  unfolding send_message
  send_message-Ensures a t text diagnostics =
      Ensures-bind _ _ (show-Ensures Ready-IsStable "Sending message..." loading) (λ _.
        Ensures-bind _ _ (post-Ensures Ready-IsStable (post_message t.ticket_id text diagnostics))
          (λ _. Ensures-bind _ _ (Ensures-lift a.sent (λ t h. h) (λ t h. h.0)) (λ r.
            Ensures-if r.0 _ _ (Ensures-pure done (λ t h. h))
              (Ensures-throw (or_text r.1 "Failed to send message") (λ t h. h.0)))))

  upload-Ensures :
      (a : Answers) (t : Ticket) (text : String) (f : Option File) (diagnostics : Option (List ℕ))
      → Ensures Ready (upload a t text f diagnostics) Ready (IsSameForm s)
  unfolding upload
  upload-Ensures a t text none diagnostics = Ensures-pure done (λ t h. h)
  upload-Ensures a t text (some f) diagnostics =
      Ensures-bind _ _ (show-Ensures Ready-IsStable "Uploading attachment..." loading) (λ _.
        Ensures-bind _ _ (Ensures-lift a.file_read (λ t h. h) (λ t h. h.0)) (λ _.
          Ensures-bind _ _ (post-Ensures Ready-IsStable (post_media t.ticket_id f text diagnostics))
            (λ _.
              Ensures-bind _ _ (Ensures-lift a.media (λ t h. h) (λ t h. h.0))
                (λ _. Ensures-pure done (λ t h. h)))))

  have_ticket : (t : Ticket) → s.ticket ≡ some t → (u : Support) → Same u → Ready u
  have_ticket t e u h = (h.0, record { ticket = t; there = h.1 ∙ e })

  ticket_for-Ensures :
      (a : Answers) (t : Option Ticket) (text : String) (f : Option File)
      (diagnostics : Option (List ℕ))
      → s.ticket ≡ t
      → Ensures Same (ticket_for a t text f diagnostics) Ready (IsSameForm s)
  unfolding ticket_for
  ticket_for-Ensures a none text f diagnostics e =
      create_ticket-Ensures a text (is_some f) diagnostics
  ticket_for-Ensures a (some t) text (some f) diagnostics e = Ensures-pure t (have_ticket t e)
  ticket_for-Ensures a (some t) text none diagnostics e = record {
    at = λ u h.
        (Ensures-bind _ _ (send_message-Ensures a t text diagnostics)
            (λ _. Ensures-pure t (λ t h. h))).at
          u (have_ticket t e u h);
  }

  send_body-Ensures : (a : Answers) → Ensures Same (send_body a s) (IsSent s) (IsSameForm s)
  unfolding send_body clear_form
  send_body-Ensures a = Ensures-bind _ _ (collect-Ensures a s.include_diagnostics) (λ diagnostics.
      Ensures-bind _ _
        (ticket_for-Ensures a s.ticket (trim s.message) s.attachment diagnostics refl)
        (λ t. Ensures-bind _ _ (upload-Ensures a t (trim s.message) s.attachment diagnostics) (λ _.
          Ensures-modify _ (λ u h. record {
            message = refl;
            include_diagnostics = refl;
            attachment = refl;
            messages = h.0.messages;
            status = refl;
            ticket = record { ticket = h.1.ticket; there = h.1.there };
          }))))

  abbrev Ended : Support → Type 0
  Ended t = IsSent s t ⊎ IsKept s t

  abbrev Finished : Support → Type 0
  Finished t = (t.sending ≡ false) × Ended t

  finish : (t : Support) → Ended t → Finished (record t { sending = false })
  finish t (inl h) = (
    refl,
    inl (record {
      message = h.message;
      include_diagnostics = h.include_diagnostics;
      attachment = h.attachment;
      messages = h.messages;
      status = h.status;
      ticket = record { ticket = h.ticket.ticket; there = h.ticket.there };
    }),
  )
  finish t (inr h) = (
    refl,
    inr (record {
      form = record {
        message = h.form.message;
        include_diagnostics = h.form.include_diagnostics;
        attachment = h.form.attachment;
        messages = h.form.messages;
      };
      text = h.text;
      status = h.status;
    }),
  )

  show_error-Ensures : (text : String) → Ensures (IsSameForm s) (show text error) Ended Ended
  unfolding show
  show_error-Ensures text = Ensures-modify _ (λ t f. inr (record {
    form = record {
      message = f.message;
      include_diagnostics = f.include_diagnostics;
      attachment = f.attachment;
      messages = f.messages;
    };
    text = text;
    status = refl;
  }))

  whole-Ensures :
      (a : Answers)
      → Ensures Same
          (finally_do
            (try_catch (send_body a s) (λ text. show text error))
            (λ t. record t { sending = false }))
          Finished
          Finished
  whole-Ensures a =
      Ensures-finally_do _ _
        (Ensures-try_catch _ _ (Ensures-weaken _ (send_body-Ensures a) (λ t h. inl h))
          show_error-Ensures)
        finish finish

-- Sending does nothing if the message is blank and there is no attachment. Otherwise, whatever
-- the requests come to, the mark of the sending is gone at the end, and either all went well: the
-- form is cleared, "Sent!" is shown and there is a ticket; or an error is shown and the form (the
-- message, the choice of diagnostics, the attachment) is kept. The messages stay either way.
pub handle_send-outcome :
    (a : Answers) (s : Support)
    → ((is_empty (trim s.message) && not (is_some s.attachment) ≡ true) × (handle_send a s ≡ s))
      ⊎ (((handle_send a s).sending ≡ false)
          × (IsSent s (handle_send a s) ⊎ IsKept s (handle_send a s)))
unfolding handle_send
handle_send-outcome a s =
    elim (Bool-cases (is_empty (trim s.message) && not (is_some s.attachment))) [
      | inl nothing ↦ inl (nothing, rw nothing refl)
      | inr something ↦ inr (
          rw something (
            IsAfter-both (Finished s) _ (
              (whole-Ensures s a).at
                (record s { sending = true; status = some ("Sending...", loading) })
                (
                  record {
                    message = refl;
                    include_diagnostics = refl;
                    attachment = refl;
                    messages = refl;
                  },
                  refl,
                ))))
    ]
