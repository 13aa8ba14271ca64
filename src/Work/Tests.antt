-- ===== src/Work/Tests.antt =====
-- Tests of the members of work (test-client/work.cpp).
use epoll_server.Base.{◌≡◌, refl, true, false, some, List, [], ◌∷◌}
use epoll_server.Base.Int.{pos}
use epoll_server.Text.{text, zeros, copy_in}
use epoll_server.Work.{Garbage, Work, log_message_received, log_message_sent, construct, fresh}
use epoll_server.Work.Counting.{
  Message, sent, received, log_message, log_messages, sent_count, answer_count, IsCounted,
  log_messages-construct,
}

abbrev left_over : Garbage
left_over = record { run = false; thread = 0 }

abbrev hello : Work
hello = fresh left_over (text "127.0.0.1") (pos 8090) (text "Hello World") (pos 0)

-- Two messages, with one good answer and one bad.
abbrev two_rounds : List Message
two_rounds =
    sent
    ∷ received (copy_in (text "Hello World") (zeros 128))
    ∷ sent
    ∷ received (copy_in (text "Hello") (zeros 128))
    ∷ []

counted : (log_messages two_rounds hello).log.sent_bytes ≡ pos 256
unfolding log_messages log_message log_message_received copy_in text zeros log_message_sent
counted = refl

hello_fits :
    construct left_over (text "127.0.0.1") (pos 8090) (text "Hello World") (pos 0) ≡ some hello
unfolding construct text
hello_fits = refl

log_messages-construct_example :
    IsCounted
      (sent_count two_rounds)
      (answer_count true hello.message two_rounds)
      (answer_count false hello.message two_rounds)
      (log_messages two_rounds hello)
log_messages-construct_example =
    log_messages-construct left_over (text "127.0.0.1") (text "Hello World") (pos 8090) (pos 0)
      hello two_rounds hello_fits
