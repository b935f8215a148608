-- ===== src/ClientPool/Follows.antt =====
-- What no event changes: the descriptors that the loop looks for, and the order to stop.
use linux_image_server.Base.{
  ℕ, ◌≡◌, refl, ◌∙◌, Option, none, some, List, [], ◌∷◌, ltb, ◌==◌, branch, ◌+◌,
}
use linux_image_server.Http.Types.{ClientType, http_client, https_client}
use linux_image_server.TimerList.{TimerList}
use linux_image_server.ClientPool
use linux_image_server.Descriptors.{remove_fd}
use linux_image_server.ClientPool.{
  Pool, Event, Outcome, fault, exited, goes_on, Handshake, no_context, no_descriptor, rejected,
  accepted_with, ServerState, stopped, running, max_fd, close_user, close_users, add_user, admit,
  add_client, with_ssl, add_ssl_client, alarm_event, readable_at, hung_up, user_event, handle_event,
  of_timers, and_then, with_user,
}

-- The descriptors the loop looks for are the same, and a loop told to stop still is.
pub record Follows (s s' : Pool) : Type 0 where
  pub same_listen : s'.listenfd ≡ s.listenfd
  pub same_ssl : s'.ssl_fd ≡ s.ssl_fd
  pub same_alarm : s'.alarm_fd ≡ s.alarm_fd
  pub same_int : s'.int_fd ≡ s.int_fd
  pub stays : s.server_state ≡ stopped → s'.server_state ≡ stopped

unfoldable pub Keeps : Pool → Outcome → Type 0
Keeps s fault = Unit {0}
Keeps s exited = Unit {0}
Keeps s (goes_on s') = Follows s s'

goes : (s s' : Pool) → Follows s s' → Keeps s (goes_on s')
unfolding Keeps
goes s s' k = k

faults : (s : Pool) → Keeps s fault
unfolding Keeps
faults s = tt

exits : (s : Pool) → Keeps s exited
unfolding Keeps
exits s = tt

same : (s : Pool) → Follows s s
same s = record {
  same_listen = refl;
  same_ssl = refl;
  same_alarm = refl;
  same_int = refl;
  stays = λ e. e;
}

Follows-trans : (s t u : Pool) → Follows s t → Follows t u → Follows s u
Follows-trans s t u a b = record {
  same_listen = b.same_listen ∙ a.same_listen;
  same_ssl = b.same_ssl ∙ a.same_ssl;
  same_alarm = b.same_alarm ∙ a.same_alarm;
  same_int = b.same_int ∙ a.same_int;
  stays = λ e. b.stays (a.stays e);
}

of_timers-Keeps :
    (s : Pool) (o : Option TimerList) (f : TimerList → Outcome)
    → ((l : TimerList) → Keeps s (f l))
    → Keeps s (of_timers o f)
unfolding of_timers
of_timers-Keeps s none f k = faults s
of_timers-Keeps s (some l) f k = k l

and_then-Keeps :
    (s : Pool) (o : Outcome) (f : Pool → Outcome)
    → Keeps s o
    → ((s1 : Pool) → Keeps s1 (f s1))
    → Keeps s (and_then o f)
unfolding and_then Keeps
and_then-Keeps s fault f k q = tt
and_then-Keeps s exited f k q = tt
and_then-Keeps s (goes_on s1) f k q = further (f s1) (q s1)
  where
    further : (o : Outcome) → Keeps s1 o → Keeps s o
    further fault b = tt
    further exited b = tt
    further (goes_on s2) b = Follows-trans s s1 s2 k b

-- What changes neither a descriptor nor the state of the server.
abbrev Apart : Pool → Pool → Type 0
Apart s s' =
    (s'.listenfd ≡ s.listenfd)
    × ((s'.ssl_fd ≡ s.ssl_fd)
        × ((s'.alarm_fd ≡ s.alarm_fd)
            × ((s'.int_fd ≡ s.int_fd) × (s'.server_state ≡ s.server_state))))

apart : (s s' : Pool) → Apart s s' → Follows s s'
apart s s' e = record {
  same_listen = e.0;
  same_ssl = e.1.0;
  same_alarm = e.1.1.0;
  same_int = e.1.1.1.0;
  stays = λ st. e.1.1.1.1 ∙ st;
}

admit-Keeps :
    (fuel : ℕ) (ev : Event) (i : ℕ) (kind : ClientType) (content : Option ℕ) (s : Pool)
    → Keeps s (admit fuel ev i kind content s)
unfolding admit add_user with_user
admit-Keeps fuel ev i kind content s =
    branch (Keeps s) (ClientPool.is_max s.user_count) _ _
      (λ full. goes s _ (apart s _ (refl, (refl, (refl, (refl, refl))))))
      (λ room.
        branch (Keeps s) (ltb i max_fd) _ _
          (λ y.
            of_timers-Keeps s _ _ (λ l. goes s _ (apart s _ (refl, (refl, (refl, (refl, refl)))))))
          (λ n. faults s))

accepting-Keeps :
    (fuel : ℕ) (ev : Event) (connfd : Option ℕ) (s : Pool)
    → Keeps s (add_client fuel ev connfd s) × Keeps s (add_ssl_client fuel ev connfd s)
unfolding add_client add_ssl_client with_ssl
accepting-Keeps fuel ev none s = (goes s s (same s), goes s s (same s))
accepting-Keeps fuel ev (some i) s =
    (admit-Keeps fuel ev i http_client none s, by_handshake ev.handshake)
  where
    by_handshake : (shake : Handshake) → Keeps s (with_ssl fuel ev i shake s)
    by_handshake no_context = goes s _ (apart s _ (refl, (refl, (refl, (refl, refl)))))
    by_handshake no_descriptor = goes s _ (apart s _ (refl, (refl, (refl, (refl, refl)))))
    by_handshake rejected = goes s _ (apart s _ (refl, (refl, (refl, (refl, refl)))))
    by_handshake (accepted_with content) = admit-Keeps fuel ev i https_client (some content) s

close_user-Keeps : (ev : Event) (i : ℕ) (s : Pool) → Keeps s (close_user ev i s)
unfolding close_user with_user
close_user-Keeps ev i s =
    branch (Keeps s) (remove_fd (ev.removed i)) _ _ (λ y. exits s)
      (λ n. goes s _ (apart s _ (refl, (refl, (refl, (refl, refl))))))

close_users-Keeps : (ev : Event) (is : List ℕ) (s : Pool) → Keeps s (close_users ev is s)
unfolding close_users
close_users-Keeps ev [] s = goes s s (same s)
close_users-Keeps ev (i ∷ is) s =
    and_then-Keeps s (close_user ev i s) _ (close_user-Keeps ev i s) (close_users-Keeps ev is)

alarm_event-Keeps : (fuel : ℕ) (ev : Event) (s : Pool) → Keeps s (alarm_event fuel ev s)
unfolding alarm_event Keeps
alarm_event-Keeps fuel ev s = of_timers-Keeps s _ _ (λ l.
    closing l (close_users ev l.closed (record s { timers = l }))
      (close_users-Keeps ev l.closed (record s { timers = l })))
  where
    closing :
        (l : TimerList) (o : Outcome)
        → Keeps (record s { timers = l }) o
        → Keeps s (and_then o (λ s1. goes_on (record s1 { alarms = s1.alarms + 1 })))
    closing l o k =
        and_then-Keeps s o _ (back o k)
          (λ s1. goes s1 _ (apart s1 _ (refl, (refl, (refl, (refl, refl))))))
      where
        back : (p : Outcome) → Keeps (record s { timers = l }) p → Keeps s p
        back fault b = faults s
        back exited b = exits s
        back (goes_on s2) b =
            Follows-trans s (record s { timers = l }) s2
              (apart s _ (refl, (refl, (refl, (refl, refl))))) b

readable_at-Keeps :
    (fuel : ℕ) (ev : Event) (timer : Option ℕ) (s : Pool) → Keeps s (readable_at fuel ev timer s)
unfolding readable_at
readable_at-Keeps fuel ev none s = faults s
readable_at-Keeps fuel ev (some a) s =
    of_timers-Keeps s _ _ (λ l. goes s _ (apart s _ (refl, (refl, (refl, (refl, refl))))))

user_event-Keeps : (fuel : ℕ) (ev : Event) (s : Pool) → Keeps s (user_event fuel ev s)
unfolding user_event hung_up
user_event-Keeps fuel ev s =
    branch (Keeps s) ev.epollin _ _ (λ y. readable_at-Keeps fuel ev (s.timer_of ev.fd) s)
      (λ n.
        branch (Keeps s) ev.epollout _ _ (λ y. goes s s (same s))
          (λ n1.
            branch (Keeps s) ev.epollerr _ _
              (λ y.
                branch (Keeps s) (ltb ev.fd max_fd) _ _
                  (λ y1.
                    and_then-Keeps s (close_user ev ev.fd s) _ (close_user-Keeps ev ev.fd s) (λ s1.
                      of_timers-Keeps s1 _ _
                        (λ l. goes s1 _ (apart s1 _ (refl, (refl, (refl, (refl, refl))))))))
                  (λ n2. faults s))
              (λ n2. goes s s (same s))))

pub handle_event-Keeps : (fuel : ℕ) (ev : Event) (s : Pool) → Keeps s (handle_event fuel ev s)
unfolding handle_event
handle_event-Keeps fuel ev s =
    branch (Keeps s) (ev.fd == s.listenfd) _ _ (λ y. (accepting-Keeps fuel ev ev.connfd s).0)
      (λ n1.
        branch (Keeps s) (ev.fd == s.ssl_fd) _ _ (λ y. (accepting-Keeps fuel ev ev.connfd s).1)
          (λ n2.
            branch (Keeps s) (ev.fd == s.alarm_fd) _ _ (λ y. alarm_event-Keeps fuel ev s)
              (λ n3.
                branch (Keeps s) (ev.fd == s.int_fd) _ _
                  (λ y. goes s _ (record {
                    same_listen = refl;
                    same_ssl = refl;
                    same_alarm = refl;
                    same_int = refl;
                    stays = λ e. refl;
                  }))
                  (λ n4. user_event-Keeps fuel ev s))))
