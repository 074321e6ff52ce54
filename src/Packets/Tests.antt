-- ===== src/Packets/Tests.antt =====
-- rumphyper_net.c: the thread 5 sleeps, a packet comes, and it is delivered while a second one comes.
use rumpuser_xen.Prelude.{ℕ, ◌-◌, ◌<◌, ◌≡◌, refl, not, ◌&&◌, [], ◌∷◌, ◌++◌, arith, ltb, length}
use rumpuser_xen.Packets.{
  maxpkt, nbuf, Viu, new_viu, myrecv, pusher_next, pusher_resume, pusher_delivered, keeps, Reach,
  created, received, started, resumed,
}
use rumpuser_xen.Packets.Queue.{queue}
use rumpuser_xen.Packets.Fifo.{Reach-fifo, Reach-awake}

abbrev asleep : Viu
asleep = pusher_next 5 new_viu

abbrev two_came : Viu
two_came = myrecv (8 ∷ 9 ∷ []) (pusher_resume 5 (myrecv (7 ∷ []) asleep))

asleep_reached : Reach 5 [] asleep
asleep_reached = started created refl

two_reached : Reach 5 ((7 ∷ []) ∷ (8 ∷ 9 ∷ []) ∷ []) two_came
unfolding myrecv pusher_next pusher_resume
two_reached = received (8 ∷ 9 ∷ []) (resumed (received (7 ∷ []) asleep_reached) refl refl)

Reach-fifo_example :
    (two_came.delivered ++ queue two_came ≡ (7 ∷ []) ∷ (8 ∷ 9 ∷ []) ∷ [])
    × (length (queue two_came) < nbuf)
    × (keeps [] two_came
        ≡ (ltb (length (queue two_came)) (nbuf - 1) && not (ltb maxpkt (length {A = ℕ} []))))
Reach-fifo_example = Reach-fifo 5 (λ e. omega (arith, e)) [] two_reached

Reach-awake_example : queue asleep ≡ []
unfolding pusher_next
Reach-awake_example = Reach-awake 5 (λ e. omega (arith, e)) asleep_reached refl refl

-- Both are delivered, in their order.
delivered_run :
    (pusher_delivered 5 (8 ∷ 9 ∷ []) (pusher_delivered 5 (7 ∷ []) two_came)).delivered
    ≡ (7 ∷ []) ∷ (8 ∷ 9 ∷ []) ∷ []
unfolding myrecv pusher_next pusher_resume pusher_delivered
delivered_run = refl
