-- ===== src/Connection/Traffic/Addressed.antt =====
-- Whose messages stand in the queue of a connection of core/main/server.cpp, while connections log
-- in and end.
use mydak_server.Base.{
  ℕ, ◌<◌, ◌≡◌, ◌≢◌, sym, ap, ◌∙◌, inl, inr, List, [], ◌∷◌, Option, none, some, arith, Bytes, All,
  length, get_elem?, get_elem?-append_one, get_elem?_lt, length-append, word,
}
use mydak_server.ClientIndex.{ClientIndex, invalid_index}
use mydak_server.SlotVector.{SlotVector}
use mydak_server.Client.{Client}
use mydak_server.Database.{Mariadb}
use mydak_server.Database.Operations.{Database}
use mydak_server.Server.{remove_client}
use mydak_server.Server.Registry.{Placed-elsewhere}
use mydak_server.Server.Logins.{asking, online, gone, Logins, begin_login, end_login}
use mydak_server.Server.Logins.Orderly.{IsOrderly, appended, before, begin_login-IsOrderly}
use mydak_server.Server.Logins.Finish.{Finished}
use mydak_server.Server.Logins.Leave.{end_login-IsOrderly}
use mydak_server.Connection.Traffic.Channels.{
  HasChannels, begin_login-HasChannels, Finished-HasChannels, end_login-HasChannels,
}
use mydak_server.Connection.Traffic.Queues.{
  queue_at, HasOwnQueues, queue_at-Placed, Placed-HasOwnQueues, queue_at-pop, pop-HasOwnQueues,
}

module _ (m : Mariadb) (P : Bytes → Bytes → Type 0) where
  -- A queue with messages for a key.
  pub record Holds (v : SlotVector Client) (queues : List (List Bytes)) (k : Bytes) (j : ℕ)
      : Type 0 where
    pub queue : ℕ
    pub messages : List Bytes
    pub here : queue_at v j ≡ some queue
    pub held : get_elem? queues queue ≡ some messages
    pub theirs : All (P k) messages

  -- Each connection that has logged in has a queue of its own and a channel, and all messages in it are for its key.
  pub record IsAddressed (l : Logins m) : Type 0 where
    pub orderly : IsOrderly m l
    pub queues : HasOwnQueues l.server.clients (length l.server.queues)
    pub channels : HasChannels l.server.clients l.connections
    pub content :
        (c : ℕ) (k : Bytes) (i : ClientIndex)
        → get_elem? l.connections c ≡ some (online k i)
        → i.index ≢ invalid_index
        → Holds l.server.clients l.server.queues k i.index

  pub begin_login-IsAddressed :
      (k : Bytes) (socket channel : Option ℕ) (l : Logins m)
      → channel ≢ none
      → IsAddressed l
      → IsAddressed (begin_login m k socket channel l)
  unfolding begin_login
  begin_login-IsAddressed k socket channel l real h = record {
    orderly = begin_login-IsOrderly m k socket channel l h.orderly;
    queues = h.queues;
    channels = begin_login-HasChannels m k socket channel l real h.channels;
    content =
        λ c k' i e inside. h.content c k' i (appended m k' k socket channel l c i e inside) inside;
  }

  pub Finished-IsAddressed :
      (c : ℕ) (k : Bytes) (socket channel : Option ℕ) (i : ClientIndex) (l l' : Logins m)
      → IsAddressed l
      → get_elem? l.connections c ≡ some (asking k socket channel)
      → Finished m c k i l l'
      → IsAddressed l'
  Finished-IsAddressed c k socket channel i l l' h at f = record {
    orderly = f.orderly;
    channels = Finished-HasChannels m c k socket channel i l l' h.channels at f;
    queues =
        rw (f.heap, length-append l.server.queues ([] ∷ []))
          (Placed-HasOwnQueues f.client l.server.clients l'.server.clients f.new
            (length l.server.queues) f.placed f.own_queue h.queues);
    content = λ c' k' a e inside.
        elim (before m c (asking k socket channel) (online k i) l at c' k' a
          (sym (ap (λ cs. get_elem? cs c') f.connected) ∙ e)) [
            | inl (_, same) ↦
                let its : i ≡ a = ground arith in
                record {
                  queue = length l.server.queues;
                  messages = [];
                  here = ground (
                    arith,
                    queue_at-Placed f.client l.server.clients l'.server.clients f.new a.index
                        f.placed,
                    f.own_queue,
                    f.same_index,
                  );
                  held = ground (
                    arith,
                    f.heap,
                    get_elem?-append_one l.server.queues [] (length l.server.queues),
                  );
                  theirs = tt;
                }
            | inr (_, old) ↦
                let o = h.content c' k' a old inside in
                let away : f.new.index ≢ a.index =
                  Placed-elsewhere f.client l.server.clients l'.server.clients f.new f.placed a
                    (h.orderly.live c' k' a old inside) in
                record {
                  queue = o.queue;
                  messages = o.messages;
                  here = ground (
                    arith,
                    queue_at-Placed f.client l.server.clients l'.server.clients f.new a.index
                        f.placed,
                    o.here,
                  );
                  held = ground (
                    arith,
                    f.heap,
                    get_elem?-append_one l.server.queues [] o.queue,
                    o.held,
                    get_elem?_lt l.server.queues o.queue o.messages o.held,
                  );
                  theirs = o.theirs;
                }
          ];
  }

  pub end_login-IsAddressed :
      (c : ℕ) (k : Bytes) (i : ClientIndex) (l : Logins m)
      → IsAddressed l
      → get_elem? l.connections c ≡ some (online k i)
      → length l.server.clients.clients < word
      → IsAddressed (end_login m c (some (online k i)) l)
  unfolding end_login remove_client
  end_login-IsAddressed c k i l h at room = record {
    orderly = (end_login-IsOrderly m c k i l h.orderly at room).0;
    channels = end_login-HasChannels m c i.index l h.channels;
    queues = pop-HasOwnQueues i.index (length l.server.queues) l.server.clients h.queues;
    content = λ c' k' a e inside. elim (before m c (online k i) gone l at c' k' a e) [
      | inl (_, e') ↦ absurd (ground (arith, e'))
      | inr (other, old) ↦
          let o = h.content c' k' a old inside in
          let away : i.index ≢ a.index = λ same.
            other (h.orderly.apart c c' k k' i a at old (λ out. inside (sym same ∙ out)) same) in
          record {
            queue = o.queue;
            messages = o.messages;
            here = queue_at-pop i.index a.index l.server.clients away ∙ o.here;
            held = o.held;
            theirs = o.theirs;
          }
    ];
  }

  -- Other queues with messages for the same keys, in the same slots.
  pub requeued-IsAddressed :
      (queues : List (List Bytes)) (l : Logins m)
      → IsAddressed l
      → length queues ≡ length l.server.queues
      → ((c : ℕ) (k : Bytes) (i : ClientIndex)
          → get_elem? l.connections c ≡ some (online k i)
          → i.index ≢ invalid_index
          → Holds l.server.clients l.server.queues k i.index
          → Holds l.server.clients queues k i.index)
      → IsAddressed (record l { server = record l.server { queues = queues } })
  requeued-IsAddressed queues l h same f = record {
    orderly = record {
      slots = h.orderly.slots;
      live = h.orderly.live;
      apart = h.orderly.apart;
      listed = h.orderly.listed;
    };
    queues = rw same h.queues;
    channels = h.channels;
    content = λ c k i e inside. f c k i e inside (h.content c k i e inside);
  }

  -- A change of the database alone.
  pub stored-IsAddressed :
      (d : Database m) (l : Logins m)
      → IsAddressed l
      → IsAddressed (record l { server = record l.server { db = d } })
  stored-IsAddressed d l h = record {
    orderly = record {
      slots = h.orderly.slots;
      live = h.orderly.live;
      apart = h.orderly.apart;
      listed = h.orderly.listed;
    };
    queues = h.queues;
    channels = h.channels;
    content = h.content;
  }
