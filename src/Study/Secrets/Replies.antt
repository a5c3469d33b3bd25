-- ===== src/Study/Secrets/Replies.antt =====
-- Which parts of a quiz the replies to a learner depend on.
